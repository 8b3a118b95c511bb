-- ===== src/Book/Invariant.antt =====
-- The invariant of the order book of orderbook/src/lib.rs: both maps are in order and hold no empty
-- level, and the cached best levels are the ends of the maps.
use orderbook_replay_lab.Base.{◌≡◌, refl, List, [], ◌∷◌, arith, if◌then◌else◌, nat_eq, text_eq}
use orderbook_replay_lab.Core.Types.{
  SymbolId, Price, Qty, is_zero, LevelUpdate, MarketEvent, l2_delta, l2_snapshot,
}
use orderbook_replay_lab.Book.Levels.{Levels, insert, first, last}
use orderbook_replay_lab.Book.Defs.{
  OrderBook, new, apply_bid_update, apply_ask_update, apply_update, apply_updates, insert_all,
  apply_snapshot, refresh_best_levels, apply,
}
use orderbook_replay_lab.Book.Sorted.{
  IsSorted, NoZero, insert-IsSorted, remove-IsSorted, insert-NoZero, remove-NoZero, last-insert,
  last-remove, first-insert, first-remove,
}

pub record IsValid (b : OrderBook) : Type 0 where
  pub bids_sorted : IsSorted b.bids
  pub asks_sorted : IsSorted b.asks
  pub bids_nonzero : NoZero b.bids
  pub asks_nonzero : NoZero b.asks
  pub bid_cached : b.best_bid_cache ≡ last b.bids
  pub ask_cached : b.best_ask_cache ≡ first b.asks

pub new-IsValid : (symbol : SymbolId) → IsValid (new symbol)
unfolding new last first
new-IsValid symbol = record {
  bids_sorted = tt;
  asks_sorted = tt;
  bids_nonzero = tt;
  asks_nonzero = tt;
  bid_cached = refl;
  ask_cached = refl;
}

apply_bid_update-IsValid :
    (p : Price) (q : Qty) (b : OrderBook) → IsValid b → IsValid (apply_bid_update p q b)
unfolding apply_bid_update
apply_bid_update-IsValid p q b v = ground (
  arith,
  insert-IsSorted p q b.bids,
  remove-IsSorted p b.bids,
  insert-NoZero p q b.bids,
  remove-NoZero p b.bids,
  last-insert p q b.bids,
  last-remove p b.bids,
)

apply_ask_update-IsValid :
    (p : Price) (q : Qty) (b : OrderBook) → IsValid b → IsValid (apply_ask_update p q b)
unfolding apply_ask_update
apply_ask_update-IsValid p q b v = ground (
  arith,
  insert-IsSorted p q b.asks,
  remove-IsSorted p b.asks,
  insert-NoZero p q b.asks,
  remove-NoZero p b.asks,
  first-insert p q b.asks,
  first-remove p b.asks,
)

pub apply_update-IsValid :
    (u : LevelUpdate) (b : OrderBook) → IsValid b → IsValid (apply_update u b)
unfolding apply_update
apply_update-IsValid u b v =
    ground (
      arith,
      apply_bid_update-IsValid u.price u.qty b v,
      apply_ask_update-IsValid u.price u.qty b v,
    )

pub apply_updates-IsValid :
    (us : List LevelUpdate) (b : OrderBook) → IsValid b → IsValid (apply_updates us b)
unfolding apply_updates
apply_updates-IsValid [] b v = v
apply_updates-IsValid (u ∷ us) b v =
    apply_updates-IsValid us (apply_update u b) (apply_update-IsValid u b v)

pub insert_all-IsSorted :
    (levels : List (Price × Qty)) (m : Levels) → IsSorted m → IsSorted (insert_all levels m)
unfolding insert_all
insert_all-IsSorted [] m s = s
insert_all-IsSorted ((p, q) ∷ levels) m s =
    insert_all-IsSorted levels (if is_zero q then m else insert p q m)
      (ground (arith, insert-IsSorted p q m s))

insert_all-NoZero :
    (levels : List (Price × Qty)) (m : Levels) → NoZero m → NoZero (insert_all levels m)
unfolding insert_all
insert_all-NoZero [] m z = z
insert_all-NoZero ((p, q) ∷ levels) m z =
    insert_all-NoZero levels (if is_zero q then m else insert p q m)
      (ground (arith, insert-NoZero p q m))

apply_snapshot-IsValid :
    (bids asks : List (Price × Qty)) (b : OrderBook) → IsValid (apply_snapshot bids asks b)
unfolding apply_snapshot refresh_best_levels
apply_snapshot-IsValid bids asks b = record {
  bids_sorted = insert_all-IsSorted bids [] tt;
  asks_sorted = insert_all-IsSorted asks [] tt;
  bids_nonzero = insert_all-NoZero bids [] tt;
  asks_nonzero = insert_all-NoZero asks [] tt;
  bid_cached = refl;
  ask_cached = refl;
}

-- Every event keeps the book valid: its maps in order and without empty levels, and its cached best
-- bid and ask the highest bid and the lowest ask that are stored.
pub apply-IsValid : (b : OrderBook) (event : MarketEvent) → IsValid b → IsValid (apply b event).0
unfolding apply
apply-IsValid b (l2_delta ts_ns symbol updates) v =
    ground (arith, apply_updates-IsValid updates b v)
apply-IsValid b (l2_snapshot ts_ns symbol bids asks) v =
    ground (arith, apply_snapshot-IsValid bids asks b)
