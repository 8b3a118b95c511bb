-- ===== src/Book/Sorted.antt =====
-- The level map of orderbook/src/lib.rs as a map: how reads answer writes, and where the ends are.
use orderbook_replay_lab.Base.{
  ◌≡◌, refl, sym, ap, ◌∙◌, inl, inr, false, none, some, [], ◌∷◌, arith, if◌then◌else◌, Option-cases,
  ◌≤ℤ◌, ◌<ℤ◌, leb_ℤ, eq_ℤ, eq_of_parts, nat_eq, text_eq,
}
use orderbook_replay_lab.Core.Types.{Price, Qty, is_zero}
use mathlib.Core.Path.{ap₂}
use orderbook_replay_lab.Book.Defs.{is_at, is_best_bid, is_best_ask}
use orderbook_replay_lab.Book.Levels.{Levels, get, insert, remove, first, last}

-- The prices rise strictly from above a bound.
abbrev pub Above : Price → Levels → Type 0
Above b [] = Unit
Above b ((k, v) ∷ m) = (b <ℤ k) × Above k m

abbrev pub IsSorted : Levels → Type 0
IsSorted [] = Unit
IsSorted ((k, v) ∷ m) = Above k m

-- No level holds a zero quantity.
abbrev pub NoZero : Levels → Type 0
NoZero [] = Unit
NoZero ((k, v) ∷ m) = (is_zero v ≡ false) × NoZero m

pub Above-weaken : (a b : Price) (m : Levels) → a <ℤ b → Above b m → Above a m
Above-weaken a b [] h s = tt
Above-weaken a b ((k, v) ∷ m) h s = (omega arith, s.1)

pub Above-IsSorted : (b : Price) (m : Levels) → Above b m → IsSorted m
Above-IsSorted b [] s = tt
Above-IsSorted b ((k, v) ∷ m) s = s.1

insert-Above : (b p : Price) (q : Qty) (m : Levels) → b <ℤ p → Above b m → Above b (insert p q m)
unfolding insert
insert-Above b p q [] h s = (h, tt)
insert-Above b p q ((k, v) ∷ m) h s = ground (arith, insert-Above k p q m, eq_of_parts p k)

pub insert-IsSorted : (p : Price) (q : Qty) (m : Levels) → IsSorted m → IsSorted (insert p q m)
unfolding insert
insert-IsSorted p q [] s = tt
insert-IsSorted p q ((k, v) ∷ m) s = ground (arith, insert-Above k p q m, eq_of_parts p k)

remove-Above : (b p : Price) (m : Levels) → Above b m → Above b (remove p m)
unfolding remove
remove-Above b p [] s = tt
remove-Above b p ((k, v) ∷ m) s = ground (arith, remove-Above k p m, Above-weaken b k m)

pub remove-IsSorted : (p : Price) (m : Levels) → IsSorted m → IsSorted (remove p m)
unfolding remove
remove-IsSorted p [] s = tt
remove-IsSorted p ((k, v) ∷ m) s = ground (arith, remove-Above k p m, Above-IsSorted k m)

pub insert-NoZero :
    (p : Price) (q : Qty) (m : Levels) → is_zero q ≡ false → NoZero m → NoZero (insert p q m)
unfolding insert
insert-NoZero p q [] h z = (h, tt)
insert-NoZero p q ((k, v) ∷ m) h z = ground (arith, insert-NoZero p q m)

pub remove-NoZero : (p : Price) (m : Levels) → NoZero m → NoZero (remove p m)
unfolding remove
remove-NoZero p [] z = tt
remove-NoZero p ((k, v) ∷ m) z = ground (arith, remove-NoZero p m)

-- Nothing is stored at or below a bound under all prices.
pub get_below : (b r : Price) (m : Levels) → Above b m → r ≤ℤ b → get r m ≡ none
unfolding get
get_below b r [] s h = refl
get_below b r ((k, v) ∷ m) s h = ground arith

pub get-insert :
    (r p : Price) (q : Qty) (m : Levels)
    → get r (insert p q m) ≡ (if eq_ℤ p r then some q else get r m)
unfolding get insert
get-insert r p q [] = ground arith
get-insert r p q ((k, v) ∷ m) = ground (arith, get-insert r p q m)

pub get-remove :
    (r p : Price) (m : Levels)
    → IsSorted m
    → get r (remove p m) ≡ (if eq_ℤ p r then none else get r m)
unfolding get remove
get-remove r p [] s = ground arith
get-remove r p ((k, v) ∷ m) s =
    ground (arith, get-remove r p m, Above-IsSorted k m, get_below k r m)

-- Reads of the tail of a sorted map, by reads of the whole.
get_tail :
    (k : Price) (v : Qty) (m : Levels) (r : Price)
    → Above k m
    → get r m ≡ (if leb_ℤ r k then none else get r ((k, v) ∷ m))
unfolding get
get_tail k v m r s = ground (arith, get_below k r m s)

get_head : (k : Price) (v : Qty) (m : Levels) → get k ((k, v) ∷ m) ≡ some v
unfolding get
get_head k v m = ground arith

-- A read below the first price fails.
get_before : (r k : Price) (v : Qty) (m : Levels) → r <ℤ k → get r ((k, v) ∷ m) ≡ none
unfolding get
get_before r k v m h = ground arith

head_price :
    (k j : Price) (v w : Qty) (m n : Levels)
    → ((r : Price) → get r ((k, v) ∷ m) ≡ get r ((j, w) ∷ n))
    → ¬ (k <ℤ j)
head_price k j v w m n h lt = cc (h k, get_head k v m, get_before k j w n lt)

-- A sorted map is determined by what it answers.
pub get-ext : (m n : Levels) → IsSorted m → IsSorted n → ((r : Price) → get r m ≡ get r n) → m ≡ n
get-ext [] [] s t h = refl
get-ext [] ((k, v) ∷ n) s t h = cc (h k, get_head k v n, get_below k k [] tt (omega arith))
get-ext ((k, v) ∷ m) [] s t h = cc (h k, get_head k v m, get_below k k [] tt (omega arith))
get-ext ((k, v) ∷ m) ((j, w) ∷ n) s t h =
    let same : k ≡ j =
      eq_of_parts k j
        (omega (arith, head_price k j v w m n h, head_price j k w v n m (λ r. sym (h r)))) in
    let value : v ≡ w =
      cc (h k, get_head k v m, ap (λ z. get z ((j, w) ∷ n)) same, get_head j w n) in
    let rest : m ≡ n = get-ext m n (Above-IsSorted k m s) (Above-IsSorted j n t) (λ r.
      get_tail k v m r s
      ∙ ap₂ (λ z o. if leb_ℤ r z then none else o) same (h r)
      ∙ sym (get_tail j w n r t)) in
    cc (same, value, rest)

-- The last price is above every bound under all prices.
last_above : (b : Price) (m : Levels) {e : Price × Qty} → Above b m → last m ≡ some e → b <ℤ e.0
unfolding last
last_above b [] s h = ground arith
last_above b ((k, v) ∷ m) s h = elim (Option-cases (last m)) [
  | inl no_more ↦ ground arith
  | inr (e', more) ↦ ground (arith, last_above k m s.1 more)
]

pub last-insert :
    (p : Price) (q : Qty) (m : Levels)
    → IsSorted m
    → last (insert p q m) ≡ (if is_best_bid p (last m) then some (p, q) else last m)
unfolding last insert
last-insert p q [] s = refl
last-insert p q ((k, v) ∷ m) s = elim (Option-cases (last m)) [
  | inl no_more ↦ ground (arith, last-insert p q m (Above-IsSorted k m s), eq_of_parts p k)
  | inr (e, more) ↦ ground (
    arith,
    last-insert p q m (Above-IsSorted k m s),
    last_above k m {e = e} s more,
    eq_of_parts p k,
  )
]

pub last-remove :
    (p : Price) (m : Levels) → IsSorted m → is_at p (last m) ≡ false → last (remove p m) ≡ last m
unfolding last remove
last-remove p [] s h = refl
last-remove p ((k, v) ∷ m) s h = elim (Option-cases (last m)) [
  | inl no_more ↦ ground (arith, last-remove p m (Above-IsSorted k m s))
  | inr (e, more) ↦
      ground (arith, last-remove p m (Above-IsSorted k m s), last_above k m {e = e} s more)
]

pub first-insert :
    (p : Price) (q : Qty) (m : Levels)
    → first (insert p q m) ≡ (if is_best_ask p (first m) then some (p, q) else first m)
unfolding first insert
first-insert p q [] = refl
first-insert p q ((k, v) ∷ m) = ground (arith, eq_of_parts p k)

pub first-remove :
    (p : Price) (m : Levels) → is_at p (first m) ≡ false → first (remove p m) ≡ first m
unfolding first remove
first-remove p [] h = refl
first-remove p ((k, v) ∷ m) h = ground arith

last_empty : (m : Levels) → last m ≡ none → m ≡ []
unfolding last
last_empty [] h = refl
last_empty ((k, v) ∷ m) h = ground arith

-- The last entry is stored.
pub get-last :
    (m : Levels) (p : Price) (q : Qty) → IsSorted m → last m ≡ some (p, q) → get p m ≡ some q
unfolding last get
get-last [] p q s h = ground arith
get-last ((k, v) ∷ m) p q s h = elim (Option-cases (last m)) [
  | inl no_more ↦ ground arith
  | inr (e, more) ↦
      ground (arith, get-last m p q (Above-IsSorted k m s), last_above k m {e = (p, q)} s)
]

-- No price is above the last.
pub last-max :
    (m : Levels) (p : Price) (q : Qty) (r : Price) (x : Qty)
    → IsSorted m
    → last m ≡ some (p, q)
    → get r m ≡ some x
    → r ≤ℤ p
unfolding last get
last-max [] p q r x s h g = ground arith
last-max ((k, v) ∷ m) p q r x s h g = elim (Option-cases (last m)) [
  | inl no_more ↦ ground (arith, ap (get r) (last_empty m no_more), eq_of_parts r k)
  | inr (e, more) ↦
      ground (arith, last-max m p q r x (Above-IsSorted k m s), last_above k m {e = (p, q)} s)
]

-- Only an empty map has no last and no first entry.
pub last-none : (m : Levels) (r : Price) → last m ≡ none → get r m ≡ none
unfolding get
last-none m r h = ground (arith, ap (get r) (last_empty m h))

pub first-none : (m : Levels) (r : Price) → first m ≡ none → get r m ≡ none
unfolding first get
first-none [] r h = refl
first-none ((k, v) ∷ m) r h = ground arith

-- The first entry is stored.
pub get-first : (m : Levels) (p : Price) (q : Qty) → first m ≡ some (p, q) → get p m ≡ some q
unfolding first get
get-first [] p q h = ground arith
get-first ((k, v) ∷ m) p q h = ground arith

-- No price is below the first.
pub first-min :
    (m : Levels) (p : Price) (q : Qty) (r : Price) (x : Qty)
    → IsSorted m
    → first m ≡ some (p, q)
    → get r m ≡ some x
    → p ≤ℤ r
unfolding first get
first-min [] p q r x s h g = ground arith
first-min ((k, v) ∷ m) p q r x s h g = ground arith
