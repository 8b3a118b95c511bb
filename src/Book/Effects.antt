-- ===== src/Book/Effects.antt =====
-- What the events of orderbook/src/lib.rs do to the levels of a book, and when their order or their
-- repetition does not matter.
use orderbook_replay_lab.Base.{
  ◌≡◌, refl, sym, ap, ◌∙◌, ◌⊎◌, inl, inr, false, ◌&&◌, Option, List, [], ◌∷◌, arith, ◌==◌, ==_iff,
  if◌then◌else◌, Bool-cases, eq_ℤ, eq_ℤ_iff, nat_eq, text_eq,
}
use orderbook_replay_lab.Core.Types.{
  Side, Price, Qty, LevelUpdate, MarketEvent, l2_delta, l2_snapshot,
}
use orderbook_replay_lab.Book.Levels.{first, last}
use orderbook_replay_lab.Book.Defs.{
  OrderBook, apply, apply_update, apply_updates, apply_snapshot, refresh_best_levels,
  apply_bid_update, apply_ask_update,
}
use orderbook_replay_lab.Book.Sorted.{get-ext}
use orderbook_replay_lab.Book.Invariant.{IsValid, apply_update-IsValid, apply-IsValid}
use orderbook_replay_lab.Book.Refinement.{
  level, same_side, written, written_all, after, symbol_of, apply_other, level-apply_update,
  level-apply_same,
}

-- An event for the book's symbol is applied, and each level becomes what the event's list says: the
-- last update of the level for a delta, the last nonzero entry alone for a snapshot. An event for
-- another symbol is not applied, and changes no level.
pub level-apply :
    (b : OrderBook) (e : MarketEvent) (s : Side) (p : Price)
    → IsValid b
    → ((apply b e).1 ≡ (symbol_of e == b.symbol))
      × (level (apply b e).0 s p
          ≡ (if symbol_of e == b.symbol then after e s p (level b s p) else level b s p))
level-apply b e s p v = elim (Bool-cases (symbol_of e == b.symbol)) [
  | inl same ↦ rw same (level-apply_same b e s p v ((==_iff (symbol_of e) b.symbol).0 same))
  | inr other ↦
      rw (other, apply_other b e (λ h. cc (other, (==_iff (symbol_of e) b.symbol).1 h)))
        (refl, refl)
]

-- Two valid books of one symbol that agree on every level are equal, caches included.
book-ext :
    (a b : OrderBook)
    → IsValid a
    → IsValid b
    → a.symbol ≡ b.symbol
    → ((s : Side) (p : Price) → level a s p ≡ level b s p)
    → a ≡ b
book-ext a b v w e h =
    let bids : a.bids ≡ b.bids = get-ext a.bids b.bids v.bids_sorted w.bids_sorted (h Side.bid) in
    let asks : a.asks ≡ b.asks = get-ext a.asks b.asks v.asks_sorted w.asks_sorted (h Side.ask) in
    let bid_cache : a.best_bid_cache ≡ b.best_bid_cache =
      v.bid_cached ∙ ap last bids ∙ sym w.bid_cached in
    let ask_cache : a.best_ask_cache ≡ b.best_ask_cache =
      v.ask_cached ∙ ap first asks ∙ sym w.ask_cached in
    λ i. record {
      symbol = e i;
      bids = bids i;
      asks = asks i;
      best_bid_cache = bid_cache i;
      best_ask_cache = ask_cache i;
    }

-- A list of updates leaves a level alone or sets it, whatever it was.
written_all-cases :
    (us : List LevelUpdate) (s : Side) (p : Price)
    → ((old : Option Qty) → written_all us s p old ≡ old)
      ⊎ ((old other : Option Qty) → written_all us s p old ≡ written_all us s p other)
written_all-cases [] s p = inl (λ old. refl)
written_all-cases (u ∷ us) s p = elim (Bool-cases (same_side u.side s && eq_ℤ u.price p)) [
  | inl hit ↦ inr (λ old other. rw hit refl)
  | inr miss ↦ elim (written_all-cases us s p) [
    | inl keeps ↦ inl (λ old. rw miss (keeps old))
    | inr sets ↦ inr (λ old other. sets _ _)
  ]
]

after_twice :
    (e : MarketEvent) (s : Side) (p : Price) (old : Option Qty)
    → after e s p (after e s p old) ≡ after e s p old
after_twice (l2_delta ts_ns symbol updates) s p old = elim (written_all-cases updates s p) [
  | inl keeps ↦ keeps _
  | inr sets ↦ sets _ _
]
after_twice (l2_snapshot ts_ns symbol bids asks) s p old = refl

symbol-apply_update : (u : LevelUpdate) (b : OrderBook) → (apply_update u b).symbol ≡ b.symbol
unfolding apply_update apply_bid_update apply_ask_update
symbol-apply_update u b = ground arith

symbol-apply_updates :
    (us : List LevelUpdate) (b : OrderBook) → (apply_updates us b).symbol ≡ b.symbol
unfolding apply_updates
symbol-apply_updates [] b = refl
symbol-apply_updates (u ∷ us) b =
    symbol-apply_updates us (apply_update u b) ∙ symbol-apply_update u b

pub symbol-apply : (b : OrderBook) (e : MarketEvent) → (apply b e).0.symbol ≡ b.symbol
unfolding apply apply_snapshot refresh_best_levels
symbol-apply b (l2_delta ts_ns symbol updates) = ground (arith, symbol-apply_updates updates b)
symbol-apply b (l2_snapshot ts_ns symbol bids asks) = ground arith

level-apply_twice :
    (b : OrderBook) (e : MarketEvent) (s : Side) (p : Price)
    → IsValid b
    → level (apply (apply b e).0 e).0 s p ≡ level (apply b e).0 s p
level-apply_twice b e s p v = elim (Bool-cases (symbol_of e == b.symbol)) [
  | inl same ↦
      (let once = level-apply_same b e s p v ((==_iff (symbol_of e) b.symbol).0 same) in
        (level-apply_same (apply b e).0 e s p (apply-IsValid b e v)
          ((==_iff (symbol_of e) b.symbol).0 same ∙ sym (symbol-apply b e))).1
        ∙ ap (after e s p) once.1
        ∙ after_twice e s p (level b s p)
        ∙ sym once.1)
  | inr other ↦
      (let skip = apply_other b e (λ h. cc (other, (==_iff (symbol_of e) b.symbol).1 h)) in
        rw (skip, skip) refl)
]

-- A valid book that is given the same event twice is the same book, caches included, as after the
-- first time.
pub apply_twice :
    (b : OrderBook) (e : MarketEvent) → IsValid b → (apply (apply b e).0 e).0 ≡ (apply b e).0
apply_twice b e v =
    book-ext (apply (apply b e).0 e).0 (apply b e).0
      (apply-IsValid (apply b e).0 e (apply-IsValid b e v)) (apply-IsValid b e v)
      (symbol-apply (apply b e).0 e) (λ s p. level-apply_twice b e s p v)

-- The updates are of different levels.
abbrev pub Apart : LevelUpdate → LevelUpdate → Type 0
Apart u w = (same_side u.side w.side && eq_ℤ u.price w.price) ≡ false

written_comm :
    (u w : LevelUpdate) (s : Side) (p : Price) (old : Option Qty)
    → Apart u w
    → written u s p (written w s p old) ≡ written w s p (written u s p old)
written_comm u w s p old h =
    ground (arith, eq_ℤ_iff u.price p, eq_ℤ_iff w.price p, eq_ℤ_iff u.price w.price)

level-apply_update_comm :
    (u w : LevelUpdate) (b : OrderBook) (s : Side) (p : Price)
    → IsValid b
    → Apart u w
    → level (apply_update u (apply_update w b)) s p ≡ level (apply_update w (apply_update u b)) s p
level-apply_update_comm u w b s p v h =
    level-apply_update u (apply_update w b) s p (apply_update-IsValid w b v)
    ∙ ap (written u s p) (level-apply_update w b s p v)
    ∙ written_comm u w s p (level b s p) h
    ∙ ap (written w s p) (sym (level-apply_update u b s p v))
    ∙ sym (level-apply_update w (apply_update u b) s p (apply_update-IsValid u b v))

-- Two updates of different levels may be applied to a valid book in either order: the books that
-- result are equal, caches included.
pub apply_update_comm :
    (u w : LevelUpdate) (b : OrderBook)
    → IsValid b
    → Apart u w
    → apply_update u (apply_update w b) ≡ apply_update w (apply_update u b)
apply_update_comm u w b v h =
    book-ext (apply_update u (apply_update w b)) (apply_update w (apply_update u b))
      (apply_update-IsValid u (apply_update w b) (apply_update-IsValid w b v))
      (apply_update-IsValid w (apply_update u b) (apply_update-IsValid u b v))
      (symbol-apply_update u (apply_update w b)
        ∙ symbol-apply_update w b
        ∙ sym (symbol-apply_update w (apply_update u b) ∙ symbol-apply_update u b))
      (λ s p. level-apply_update_comm u w b s p v h)
