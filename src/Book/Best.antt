-- ===== src/Book/Best.antt =====
-- The best levels of orderbook/src/lib.rs, which come from caches, against the stored levels.
use orderbook_replay_lab.Base.{
  ◌≡◌, sym, ◌⊎◌, inl, inr, Option, none, some, List, [], ◌∷◌, Option-cases, ◌≤ℤ◌, nat_eq, text_eq,
}
use orderbook_replay_lab.Core.Types.{Side, SymbolId, Price, Qty, MarketEvent}
use orderbook_replay_lab.Book.Levels.{get, first, last}
use orderbook_replay_lab.Book.Defs.{OrderBook, new, apply, best_bid, best_ask}
use orderbook_replay_lab.Book.Sorted.{
  IsSorted, get-last, last-max, last-none, get-first, first-min, first-none,
}
use orderbook_replay_lab.Book.Invariant.{IsValid, new-IsValid, apply-IsValid}
use orderbook_replay_lab.Book.Refinement.{level}

-- The answer of `best_bid` is right with regard to the price `r`.
abbrev pub Highest : OrderBook → Price → Option (Price × Qty) → Type 0
Highest b r none = level b Side.bid r ≡ none
Highest b r (some (p, q)) = (level b Side.bid p ≡ some q) × ((level b Side.bid r ≡ none) ⊎ (r ≤ℤ p))

-- The answer of `best_ask` is right with regard to the price `r`.
abbrev pub Lowest : OrderBook → Price → Option (Price × Qty) → Type 0
Lowest b r none = level b Side.ask r ≡ none
Lowest b r (some (p, q)) = (level b Side.ask p ≡ some q) × ((level b Side.ask r ≡ none) ⊎ (p ≤ℤ r))

Highest-last :
    (b : OrderBook) (r : Price) (o : Option (Price × Qty))
    → IsSorted b.bids
    → o ≡ last b.bids
    → Highest b r o
Highest-last b r none s e = last-none b.bids r (sym e)
Highest-last b r (some (p, q)) s e = (
  get-last b.bids p q s (sym e),
  elim (Option-cases (get r b.bids)) [
    | inl absent ↦ inl absent
    | inr (x, stored) ↦ inr (last-max b.bids p q r x s (sym e) stored)
  ],
)

Lowest-first :
    (b : OrderBook) (r : Price) (o : Option (Price × Qty))
    → IsSorted b.asks
    → o ≡ first b.asks
    → Lowest b r o
Lowest-first b r none s e = first-none b.asks r (sym e)
Lowest-first b r (some (p, q)) s e = (
  get-first b.asks p q (sym e),
  elim (Option-cases (get r b.asks)) [
    | inl absent ↦ inl absent
    | inr (x, stored) ↦ inr (first-min b.asks p q r x s (sym e) stored)
  ],
)

-- The book after a list of events.
unfoldable pub replay : List MarketEvent → OrderBook → OrderBook
replay [] b = b
replay (e ∷ events) b = replay events (apply b e).0

pub replay-IsValid :
    (events : List MarketEvent) (b : OrderBook) → IsValid b → IsValid (replay events b)
unfolding replay
replay-IsValid [] b v = v
replay-IsValid (e ∷ events) b v = replay-IsValid events (apply b e).0 (apply-IsValid b e v)

-- Start from an empty book and apply any events. The best bid that is then reported is stored with
-- its quantity and no stored bid has a higher price; if none is reported, no bid is stored. The same
-- holds of the best ask, with lower for higher.
pub replay-best :
    (symbol : SymbolId) (events : List MarketEvent) (r : Price)
    → let b = replay events (new symbol) in Highest b r (best_bid b) × Lowest b r (best_ask b)
replay-best symbol events r =
    let b = replay events (new symbol) in
    let v : IsValid b = replay-IsValid events (new symbol) (new-IsValid symbol) in
    (
      Highest-last b r (best_bid b) v.bids_sorted v.bid_cached,
      Lowest-first b r (best_ask b) v.asks_sorted v.ask_cached,
    )
