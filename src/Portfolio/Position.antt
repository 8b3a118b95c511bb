-- ===== src/Portfolio/Position.antt =====
-- One position of portfolio/src/lib.rs under fills, in exact arithmetic where the numbers fit.
use native.Mathlib.Nat.{mul-le-mul, mul-div_cancel}
use orderbook_replay_lab.Base.{
  ℕ, zero, suc, ◌+◌, ◌*◌, ◌≤◌, ◌<◌, ◌≡◌, ap, ◌∙◌, ◌↔◌, true, none, arith, ℤ, pos, negsuc, ◌+ℤ◌,
  ◌-ℤ◌, ◌*ℤ◌, eq_ℤ, int_laws, FitsI64, FitsI128, half_i64, half_i128, abs, quot_ℤ, abs_i64,
  add_i128, mul_i128, add_i64-eq, abs_i64-eq, add_i128-eq, mul_i128-eq, as_i64-eq, nat_eq, text_eq,
}
use orderbook_replay_lab.Portfolio.Defs.{Position, get_or, weighted_avg, avg_after, fill_position}

-- A position is flat exactly when it has no entry price.
abbrev pub IsFlatOrPriced : Position → Type 0
IsFlatOrPriced p = (eq_ℤ p.position_lots (pos 0) ≡ true) ↔ (p.avg_entry_price_ticks ≡ none)

-- After any fill the position has an entry price exactly if it is not flat.
pub fill_position-IsFlatOrPriced :
    (p : Position) (x q fee : ℤ) → IsFlatOrPriced (fill_position p x q fee)
unfolding fill_position avg_after
fill_position-IsFlatOrPriced p x q fee = ground arith

pub position_lots-fill :
    (p : Position) (x q fee : ℤ)
    → FitsI64 (p.position_lots +ℤ q)
    → (fill_position p x q fee).position_lots ≡ p.position_lots +ℤ q
unfolding fill_position
position_lots-fill p x q fee h = add_i64-eq p.position_lots q h

pub pos-*ℤ : (m n : ℕ) → pos m *ℤ pos n ≡ pos (m * n)
unfolding ◌*ℤ◌
pos-*ℤ m n = ground arith

pub negsuc-*ℤ : (m n : ℕ) → negsuc m *ℤ pos (suc n) ≡ negsuc (m + n + m * n)
unfolding ◌*ℤ◌
negsuc-*ℤ m n = ground arith

pub *ℤ-zero : (x : ℤ) → x *ℤ pos 0 ≡ pos 0
unfolding ◌*ℤ◌
*ℤ-zero (pos m) = ground arith
*ℤ-zero (negsuc m) = ground arith

product_bound : (m n : ℕ) → m ≤ half_i64 → n < half_i64 → m * n < half_i128
product_bound m n h k =
    omega (arith, mul-le-mul {n₁ = m} {m₁ = n} {n₂ = half_i64} {m₂ = half_i64} h (omega arith))

-- The exact product of a price and a number of lots fits in an `i128`.
pub product-FitsI128 : (x : ℤ) (n : ℕ) → FitsI64 x → n < half_i64 → FitsI128 (x *ℤ pos n)
product-FitsI128 (pos m) n h k = rw (pos-*ℤ m n) (omega (arith, product_bound m n (omega arith) k))
product-FitsI128 (negsuc m) zero h k = rw (*ℤ-zero (negsuc m)) (omega arith)
product-FitsI128 (negsuc m) (suc n) h k =
    rw (negsuc-*ℤ m n) (omega (arith, product_bound (suc m) (suc n) h.1 k))

negated : (m : ℕ) → pos 0 -ℤ pos (suc m) ≡ negsuc m
unfolding ◌-ℤ◌
negated m = ground arith

div-product : (x : ℤ) (n : ℕ) → 0 < n → quot_ℤ (x *ℤ pos n) n ≡ x
div-product (pos m) n h = rw (pos-*ℤ m n) (ap pos (mul-div_cancel m h))
div-product (negsuc m) zero h = absurd (omega arith)
div-product (negsuc m) (suc n) h =
    let product : suc (m + n + m * n) ≡ suc m * suc n = omega arith in
    rw (negsuc-*ℤ m n, product, mul-div_cancel (suc m) h) (negated m)

pub zero-+ℤ : (x : ℤ) → pos 0 +ℤ x ≡ x
zero-+ℤ x = omega int_laws

-- The weighted average of no lots and some new ones is the price of the new ones.
pub weighted_avg-flat :
    (p : Position) (x q : ℤ) (n : ℕ)
    → p.position_lots ≡ pos 0
    → abs q ≡ pos n
    → 0 < n
    → n < half_i64
    → FitsI64 x
    → weighted_avg p x q ≡ x
unfolding weighted_avg
weighted_avg-flat p x q n flat size some_lots small fits =
    let a = get_or x p.avg_entry_price_ticks in
    let old_qty : abs_i64 p.position_lots ≡ pos 0 = rw flat (abs_i64-eq (pos 0) (omega arith)) in
    let add_qty : abs_i64 q ≡ pos n = abs_i64-eq q (rw size (omega arith)) ∙ size in
    let total : add_i128 (pos 0) (pos n) ≡ pos n =
      add_i128-eq (pos 0) (pos n) (rw (zero-+ℤ (pos n)) (omega arith)) ∙ zero-+ℤ (pos n) in
    let old_cost : mul_i128 a (pos 0) ≡ pos 0 =
      mul_i128-eq a (pos 0) (rw (*ℤ-zero a) (omega arith)) ∙ *ℤ-zero a in
    let new_cost : mul_i128 x (pos n) ≡ x *ℤ pos n =
      mul_i128-eq x (pos n) (product-FitsI128 x n fits small) in
    let cost : add_i128 (pos 0) (x *ℤ pos n) ≡ x *ℤ pos n =
      add_i128-eq (pos 0) (x *ℤ pos n) (rw (zero-+ℤ (x *ℤ pos n)) (product-FitsI128 x n fits small))
      ∙ zero-+ℤ (x *ℤ pos n) in
    rw (old_qty, add_qty, total, old_cost, new_cost, cost, div-product x n some_lots)
      (as_i64-eq x fits)
