-- ===== src/Cli/Gen/Fits.antt =====
-- The machine numbers of `run_gen` in cli/src/main.rs: what the operations on them give.
use orderbook_replay_lab.Base.{
  ℕ, ◌+◌, ◌-◌, ◌≤◌, ◌<◌, ◌≡◌, refl, sym, subst, ◌∙◌, false, [], ◌∷◌, ◌++◌, arith, ℤ, pos, negsuc,
  pos_part, neg_part, ◌+ℤ◌, ◌-ℤ◌, ◌≤ℤ◌, ltb_ℤ, int_laws, FitsI64, half_i64, max_ℤ, wrap, All, List,
  add_i64, sub_i64, add_i64-eq, sub_i64-eq, nat_eq, text_eq,
}
use orderbook_replay_lab.Base.Result.{ok}
use orderbook_replay_lab.Core.Types.{Price, Qty, new_price, new_qty, LevelUpdate}
use orderbook_replay_lab.Base.{max_ℤ}
use orderbook_replay_lab.Base.Int.{one_part}

pub sum_nat :
    (mid d : ℤ)
    → pos 1 ≤ℤ mid
    → neg_part d ≤ 1
    → mid +ℤ d ≡ pos (pos_part mid + pos_part d - neg_part d)
unfolding ◌+ℤ◌
sum_nat (pos m) (pos d) one small = ground arith
sum_nat (pos m) (negsuc d) one small = ground (arith, one, small)
sum_nat (negsuc m) d one small = absurd (omega arith)

pub sum_exact :
    (mid d : ℤ)
    → pos 1 ≤ℤ mid
    → pos_part mid + pos_part d < half_i64
    → neg_part d ≤ 1
    → add_i64 mid d ≡ pos (pos_part mid + pos_part d - neg_part d)
sum_exact mid d one room small =
    let e = sum_nat mid d one small in
    add_i64-eq mid d (subst FitsI64 (sym e) (omega arith, omega arith)) ∙ e

pub max_one : (a : ℤ) → pos 1 ≤ℤ max_ℤ a (pos 1)
max_one a = ground arith

pub new_price-ok : (a : ℤ) → pos 0 ≤ℤ a → new_price a ≡ ok a
unfolding new_price
new_price-ok a h = let fine : ltb_ℤ a (pos 0) ≡ false = ground (arith, h) in rw fine refl

pub new_qty-ok : (a : ℤ) → pos 0 ≤ℤ a → new_qty a ≡ ok a
unfolding new_qty
new_qty-ok a h = let fine : ltb_ℤ a (pos 0) ≡ false = ground (arith, h) in rw fine refl

-- A machine operation gives a number of the machine.
pub wrap_fits : (z : ℤ) → FitsI64 (wrap half_i64 z)
unfolding wrap
wrap_fits (pos n) = ground arith
wrap_fits (negsuc n) = ground arith

pub add_i64_fits : (a b : ℤ) → FitsI64 (add_i64 a b)
unfolding add_i64
add_i64_fits a b = wrap_fits (a +ℤ b)

pub sub_i64_fits : (a b : ℤ) → FitsI64 (sub_i64 a b)
unfolding sub_i64
sub_i64_fits a b = wrap_fits (a -ℤ b)

pub max_one_fits : (a : ℤ) → FitsI64 a → FitsI64 (max_ℤ a (pos 1))
max_one_fits a h = ground (arith, h)

pub small_fits : (q : ℤ) → pos 0 ≤ℤ q → q ≤ℤ pos 10 → FitsI64 q
small_fits (pos n) low high = (omega (arith, high), omega arith)
small_fits (negsuc n) low high = absurd (omega arith)

abbrev pub LevelFits : Price × Qty → Type 0
LevelFits (price, qty) = FitsI64 price × FitsI64 qty

abbrev pub UpdateFits : LevelUpdate → Type 0
UpdateFits u = FitsI64 u.price × FitsI64 u.qty

pub All-append :
    {A : Type 0} (P : A → Type 0) (xs : List A) {y : A} → All P xs → P y → All P (xs ++ y ∷ [])
All-append P [] h p = (p, tt)
All-append P (x ∷ xs) (q, h) p = (q, All-append P xs h p)

pub difference_fits : (m o : ℕ) → m < half_i64 → o ≤ 5 → FitsI64 (pos m -ℤ pos o)
unfolding ◌-ℤ◌
difference_fits m o h k = (ground (arith, h), ground (arith, k))

pub difference_low : (m o : ℕ) → pos m -ℤ pos o ≤ℤ pos m
difference_low m o = omega (int_laws, one_part (pos m -ℤ pos o))

pub below_mid :
    (m o : ℕ) → 1 ≤ m → m + 5 < half_i64 → o ≤ 5 → max_ℤ (sub_i64 (pos m) (pos o)) (pos 1) ≤ℤ pos m
below_mid m o one room small =
    rw (sub_i64-eq (pos m) (pos o) (difference_fits m o (omega arith) small))
      (ground (arith, difference_low m o, one))
