-- ===== src/Book/Levels.antt =====
-- Rust's `BTreeMap<Price, Qty>` of orderbook/src/lib.rs, as the list of its entries by rising price.
use orderbook_replay_lab.Base.{
  Option, none, some, List, [], ◌∷◌, if◌then◌else◌, ltb_ℤ, nat_eq, text_eq,
}
use orderbook_replay_lab.Core.Types.{Price, Qty}

abbrev pub Levels : Type 0
Levels = List (Price × Qty)

-- `get`
unfoldable pub get : Price → Levels → Option Qty
get p [] = none
get p ((k, v) ∷ m) = if ltb_ℤ p k then none else if ltb_ℤ k p then get p m else some v

-- `insert`
unfoldable pub insert : Price → Qty → Levels → Levels
insert p q [] = (p, q) ∷ []
insert p q ((k, v) ∷ m) =
    if ltb_ℤ p k
    then (p, q) ∷ (k, v) ∷ m
    else if ltb_ℤ k p
    then (k, v) ∷ insert p q m
    else (p, q) ∷ m

-- `remove`
unfoldable pub remove : Price → Levels → Levels
remove p [] = []
remove p ((k, v) ∷ m) =
    if ltb_ℤ p k then (k, v) ∷ m else if ltb_ℤ k p then (k, v) ∷ remove p m else m

-- `iter().next()`
unfoldable pub first : Levels → Option (Price × Qty)
first [] = none
first (e ∷ m) = some e

-- `iter().next_back()`
unfoldable pub last : Levels → Option (Price × Qty)
last [] = none
last (e ∷ m) = elim (last m) [ none ↦ some e | some e' ↦ some e' ]
