-- ===== src/Book/Symbols.antt =====
-- orderbook/src/lib.rs: a book keeps its symbol, and applies the events of that symbol.
use orderbook_replay_lab.Base.{
  ◌≡◌, refl, ◌∙◌, inl, inr, List, [], ◌∷◌, arith, ◌==◌, Bool-cases, nat_eq, text_eq,
}
use orderbook_replay_lab.Core.Types.{LevelUpdate, MarketEvent}
use orderbook_replay_lab.Book.Defs.{
  OrderBook, apply_bid_update, apply_ask_update, apply_update, apply_updates, apply_snapshot,
  refresh_best_levels, apply,
}
use orderbook_replay_lab.Book.Refinement.{symbol_of}

apply_update-symbol : (u : LevelUpdate) (b : OrderBook) → (apply_update u b).symbol ≡ b.symbol
unfolding apply_update apply_bid_update apply_ask_update
apply_update-symbol u b = ground arith

apply_updates-symbol :
    (us : List LevelUpdate) (b : OrderBook) → (apply_updates us b).symbol ≡ b.symbol
unfolding apply_updates
apply_updates-symbol [] b = refl
apply_updates-symbol (u ∷ us) b =
    apply_updates-symbol us (apply_update u b) ∙ apply_update-symbol u b

pub apply-symbol : (b : OrderBook) (e : MarketEvent) → (apply b e).0.symbol ≡ b.symbol
unfolding apply apply_snapshot refresh_best_levels
apply-symbol b (MarketEvent.l2_delta ts_ns symbol updates) =
    elim (Bool-cases (symbol == b.symbol)) [
      | inl same ↦ rw same (apply_updates-symbol updates b)
      | inr other ↦ rw other refl
    ]
apply-symbol b (MarketEvent.l2_snapshot ts_ns symbol bids asks) =
    elim (Bool-cases (symbol == b.symbol)) [ inl same ↦ rw same refl | inr other ↦ rw other refl ]

pub apply-applied : (b : OrderBook) (e : MarketEvent) → (apply b e).1 ≡ (symbol_of e == b.symbol)
unfolding apply
apply-applied b (MarketEvent.l2_delta ts_ns symbol updates) =
    elim (Bool-cases (symbol == b.symbol)) [ inl same ↦ rw same refl | inr other ↦ rw other refl ]
apply-applied b (MarketEvent.l2_snapshot ts_ns symbol bids asks) =
    elim (Bool-cases (symbol == b.symbol)) [ inl same ↦ rw same refl | inr other ↦ rw other refl ]
