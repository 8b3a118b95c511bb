-- ===== src/Book/Refinement.antt =====
-- The order book of orderbook/src/lib.rs as a function from side and price to quantity: what an
-- event writes, without the maps and the caches.
use orderbook_replay_lab.Base.{
  ◌≡◌, refl, ap, ◌∙◌, ◌≢◌, Bool, true, false, not, ◌&&◌, Option, none, some, List, [], ◌∷◌, arith,
  if◌then◌else◌, eq_ℤ, nat_eq, text_eq,
}
use orderbook_replay_lab.Core.Types.{
  Side, SymbolId, Price, Qty, is_zero, LevelUpdate, MarketEvent, l2_delta, l2_snapshot,
}
use orderbook_replay_lab.Book.Levels.{Levels, get, insert}
use orderbook_replay_lab.Book.Defs.{
  OrderBook, apply_bid_update, apply_ask_update, apply_update, apply_updates, insert_all,
  apply_snapshot, refresh_best_levels, apply,
}
use orderbook_replay_lab.Book.Sorted.{get-insert, get-remove}
use orderbook_replay_lab.Book.Invariant.{IsValid, apply_update-IsValid}

-- The quantity at a side and a price.
abbrev pub level : OrderBook → Side → Price → Option Qty
level b Side.bid p = get p b.bids
level b Side.ask p = get p b.asks

abbrev pub same_side : Side → Side → Bool
same_side Side.bid Side.bid = true
same_side Side.ask Side.ask = true
same_side Side.bid Side.ask = false
same_side Side.ask Side.bid = false

-- One update: its own level takes the quantity, or goes if the quantity is zero.
abbrev pub written : LevelUpdate → Side → Price → Option Qty → Option Qty
written u s p old =
    if same_side u.side s && eq_ℤ u.price p
    then (if is_zero u.qty then none else some u.qty)
    else old

-- A list of updates, oldest first.
abbrev pub written_all : List LevelUpdate → Side → Price → Option Qty → Option Qty
written_all [] s p old = old
written_all (u ∷ us) s p old = written_all us s p (written u s p old)

-- The last entry of a snapshot that is at the price and not zero.
abbrev pub listed : List (Price × Qty) → Price → Option Qty → Option Qty
listed [] p old = old
listed ((k, q) ∷ levels) p old =
    listed levels p (if not (is_zero q) && eq_ℤ k p then some q else old)

abbrev pub listed_side : List (Price × Qty) → List (Price × Qty) → Side → Price → Option Qty
listed_side bids asks Side.bid p = listed bids p none
listed_side bids asks Side.ask p = listed asks p none

-- What an event for the book's symbol makes of the levels.
abbrev pub after : MarketEvent → Side → Price → Option Qty → Option Qty
after (l2_delta ts_ns symbol updates) s p old = written_all updates s p old
after (l2_snapshot ts_ns symbol bids asks) s p old = listed_side bids asks s p

abbrev pub symbol_of : MarketEvent → SymbolId
symbol_of (l2_delta ts_ns symbol updates) = symbol
symbol_of (l2_snapshot ts_ns symbol bids asks) = symbol

pub level-apply_update :
    (u : LevelUpdate) (b : OrderBook) (s : Side) (p : Price)
    → IsValid b
    → level (apply_update u b) s p ≡ written u s p (level b s p)
unfolding apply_update apply_bid_update apply_ask_update
level-apply_update u b Side.bid p v =
    ground (arith, get-insert p u.price u.qty b.bids, get-remove p u.price b.bids v.bids_sorted)
level-apply_update u b Side.ask p v =
    ground (arith, get-insert p u.price u.qty b.asks, get-remove p u.price b.asks v.asks_sorted)

level-apply_updates :
    (us : List LevelUpdate) (b : OrderBook) (s : Side) (p : Price)
    → IsValid b
    → level (apply_updates us b) s p ≡ written_all us s p (level b s p)
unfolding apply_updates
level-apply_updates [] b s p v = refl
level-apply_updates (u ∷ us) b s p v =
    level-apply_updates us (apply_update u b) s p (apply_update-IsValid u b v)
    ∙ ap (written_all us s p) (level-apply_update u b s p v)

get-insert_all :
    (levels : List (Price × Qty)) (m : Levels) (p : Price)
    → get p (insert_all levels m) ≡ listed levels p (get p m)
unfolding insert_all
get-insert_all [] m p = refl
get-insert_all ((k, q) ∷ levels) m p =
    get-insert_all levels (if is_zero q then m else insert k q m) p
    ∙ ap (listed levels p) (ground (arith, get-insert p k q m))

level-apply_snapshot :
    (bids asks : List (Price × Qty)) (b : OrderBook) (s : Side) (p : Price)
    → level (apply_snapshot bids asks b) s p ≡ listed_side bids asks s p
unfolding apply_snapshot refresh_best_levels get
level-apply_snapshot bids asks b Side.bid p = get-insert_all bids [] p
level-apply_snapshot bids asks b Side.ask p = get-insert_all asks [] p

pub apply_other :
    (b : OrderBook) (e : MarketEvent) → symbol_of e ≢ b.symbol → apply b e ≡ (b, false)
unfolding apply
apply_other b (l2_delta ts_ns symbol updates) h = ground arith
apply_other b (l2_snapshot ts_ns symbol bids asks) h = ground arith

pub level-apply_same :
    (b : OrderBook) (e : MarketEvent) (s : Side) (p : Price)
    → IsValid b
    → symbol_of e ≡ b.symbol
    → ((apply b e).1 ≡ true) × (level (apply b e).0 s p ≡ after e s p (level b s p))
unfolding apply
level-apply_same b (l2_delta ts_ns symbol updates) s p v h =
    ground (arith, level-apply_updates updates b s p v)
level-apply_same b (l2_snapshot ts_ns symbol bids asks) s p v h =
    ground (arith, level-apply_snapshot bids asks b s p)
