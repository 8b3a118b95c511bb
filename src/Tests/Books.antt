-- ===== src/Tests/Books.antt =====
-- The theorems on orderbook/src/lib.rs at concrete books and events.
use orderbook_replay_lab.Base.{◌≡◌, refl, [], ◌∷◌, ◌==◌, if◌then◌else◌, ℤ, pos, nat_eq, text_eq}
use orderbook_replay_lab.Core.Types.{Side, LevelUpdate, MarketEvent, l2_delta, l2_snapshot}
use orderbook_replay_lab.Book.Defs.{OrderBook, new, apply, apply_update, best_bid, best_ask}
use orderbook_replay_lab.Book.Invariant.{IsValid, new-IsValid, apply-IsValid}
use orderbook_replay_lab.Book.Refinement.{level, after, symbol_of}
use orderbook_replay_lab.Book.Best.{replay, Highest, Lowest, replay-best}
use orderbook_replay_lab.Book.Effects.{level-apply, apply_twice, apply_update_comm}

abbrev bid_at : ℤ → ℤ → LevelUpdate
bid_at p q = record { side = Side.bid; price = p; qty = q }

abbrev ask_at : ℤ → ℤ → LevelUpdate
ask_at p q = record { side = Side.ask; price = p; qty = q }

abbrev snapshot : MarketEvent
snapshot =
    l2_snapshot 1 7 ((pos 99, pos 4) ∷ (pos 100, pos 5) ∷ [])
      ((pos 101, pos 3) ∷ (pos 102, pos 6) ∷ [])

abbrev delta : MarketEvent
delta = l2_delta 2 7 (bid_at (pos 100) (pos 0) ∷ ask_at (pos 101) (pos 8) ∷ [])

-- A book with two levels on each side.
abbrev book : OrderBook
book = (apply (new 7) snapshot).0

book-IsValid : IsValid book
book-IsValid = apply-IsValid (new 7) snapshot (new-IsValid 7)

level-apply_example :
    ((apply book delta).1 ≡ (symbol_of delta == book.symbol))
    × (level (apply book delta).0 Side.bid (pos 100) ≡ (
        if symbol_of delta == book.symbol
        then after delta Side.bid (pos 100) (level book Side.bid (pos 100))
        else level book Side.bid (pos 100)))
level-apply_example = level-apply book delta Side.bid (pos 100) book-IsValid

replay-best_example :
    let b = replay (snapshot ∷ delta ∷ []) (new 7) in
    Highest b (pos 99) (best_bid b) × Lowest b (pos 99) (best_ask b)
replay-best_example = replay-best 7 (snapshot ∷ delta ∷ []) (pos 99)

apply-IsValid_example : IsValid (apply book delta).0
apply-IsValid_example = apply-IsValid book delta book-IsValid

apply_twice_example : (apply (apply book delta).0 delta).0 ≡ (apply book delta).0
apply_twice_example = apply_twice book delta book-IsValid

apply_update_comm_example :
    apply_update (bid_at (pos 100) (pos 0)) (apply_update (ask_at (pos 100) (pos 2)) book)
    ≡ apply_update (ask_at (pos 100) (pos 2)) (apply_update (bid_at (pos 100) (pos 0)) book)
apply_update_comm_example =
    apply_update_comm (bid_at (pos 100) (pos 0)) (ask_at (pos 100) (pos 2)) book book-IsValid refl
