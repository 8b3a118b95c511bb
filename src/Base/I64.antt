-- ===== src/Base/I64.antt =====
-- The `i64`, `i128` and `u64` operations that the Rust sources call, on integers and native numbers.
use Prim.Native.Nat.{ℕ, suc, ◌+◌, ◌-◌, ◌/◌, ◌%◌, ◌^◌, ◌≤◌, ◌<◌, min}
use mathlib.Core.Path.{◌≡◌}
use orderbook_replay_lab.Base.Tests.{if◌then◌else◌}
use orderbook_replay_lab.Base.Int.{
  ℤ, pos, negsuc, ◌+ℤ◌, ◌-ℤ◌, ◌*ℤ◌, leb_ℤ, ltb_ℤ, wrap, half_i64, half_i128, FitsI64, FitsI128,
  wrap-eq_of_Fits,
}

-- `i64::abs` before it wraps.
abbrev pub abs : ℤ → ℤ
abs (pos n) = pos n
abs (negsuc n) = pos (suc n)

-- `i64::signum`.
abbrev pub signum : ℤ → ℤ
signum a = if ltb_ℤ (pos 0) a then pos 1 else if ltb_ℤ a (pos 0) then negsuc 0 else pos 0

abbrev pub min_ℤ : ℤ → ℤ → ℤ
min_ℤ a b = if leb_ℤ a b then a else b

abbrev pub max_ℤ : ℤ → ℤ → ℤ
max_ℤ a b = if leb_ℤ a b then b else a

-- Division by a positive divisor, rounded towards zero, as `/` on Rust's integers.
abbrev pub quot_ℤ : ℤ → ℕ → ℤ
quot_ℤ (pos n) d = pos (n / d)
quot_ℤ (negsuc n) d = pos 0 -ℤ pos (suc n / d)

unfoldable pub add_i64 : ℤ → ℤ → ℤ
add_i64 a b = wrap half_i64 (a +ℤ b)

unfoldable pub sub_i64 : ℤ → ℤ → ℤ
sub_i64 a b = wrap half_i64 (a -ℤ b)

unfoldable pub neg_i64 : ℤ → ℤ
neg_i64 a = wrap half_i64 (pos 0 -ℤ a)

unfoldable pub abs_i64 : ℤ → ℤ
abs_i64 a = wrap half_i64 (abs a)

unfoldable pub add_i128 : ℤ → ℤ → ℤ
add_i128 a b = wrap half_i128 (a +ℤ b)

unfoldable pub mul_i128 : ℤ → ℤ → ℤ
mul_i128 a b = wrap half_i128 (a *ℤ b)

-- A value clamped to the range of `i64`, as the saturating operations and `clamp` do.
abbrev pub clamp_i64 : ℤ → ℤ
clamp_i64 (pos n) = pos (min n (half_i64 - 1))
clamp_i64 (negsuc n) = negsuc (min n (half_i64 - 1))

unfoldable pub saturating_sub_i64 : ℤ → ℤ → ℤ
saturating_sub_i64 a b = clamp_i64 (a -ℤ b)

-- `x as i64`.
unfoldable pub as_i64 : ℤ → ℤ
as_i64 a = wrap half_i64 a

abbrev pub u64_mod : ℕ
u64_mod = 2 ^ 64

-- `saturating_add` and `+` on `u64` (and on `usize`, of the same width).
unfoldable pub saturating_add_u64 : ℕ → ℕ → ℕ
saturating_add_u64 a b = min (a + b) (u64_mod - 1)

unfoldable pub saturating_mul_u64 : ℕ → ℕ → ℕ
saturating_mul_u64 a b = min (Prim.Native.Nat.◌*◌ a b) (u64_mod - 1)

unfoldable pub add_u64 : ℕ → ℕ → ℕ
add_u64 a b = (a + b) % u64_mod

-- Where the exact result fits, the machine's result is the exact one.
pub add_i64-eq : (a b : ℤ) → FitsI64 (a +ℤ b) → add_i64 a b ≡ a +ℤ b
unfolding add_i64
add_i64-eq a b h = wrap-eq_of_Fits half_i64 (a +ℤ b) h

pub sub_i64-eq : (a b : ℤ) → FitsI64 (a -ℤ b) → sub_i64 a b ≡ a -ℤ b
unfolding sub_i64
sub_i64-eq a b h = wrap-eq_of_Fits half_i64 (a -ℤ b) h

pub neg_i64-eq : (a : ℤ) → FitsI64 (pos 0 -ℤ a) → neg_i64 a ≡ pos 0 -ℤ a
unfolding neg_i64
neg_i64-eq a h = wrap-eq_of_Fits half_i64 (pos 0 -ℤ a) h

pub abs_i64-eq : (a : ℤ) → FitsI64 (abs a) → abs_i64 a ≡ abs a
unfolding abs_i64
abs_i64-eq a h = wrap-eq_of_Fits half_i64 (abs a) h

pub add_i128-eq : (a b : ℤ) → FitsI128 (a +ℤ b) → add_i128 a b ≡ a +ℤ b
unfolding add_i128
add_i128-eq a b h = wrap-eq_of_Fits half_i128 (a +ℤ b) h

pub mul_i128-eq : (a b : ℤ) → FitsI128 (a *ℤ b) → mul_i128 a b ≡ a *ℤ b
unfolding mul_i128
mul_i128-eq a b h = wrap-eq_of_Fits half_i128 (a *ℤ b) h

pub as_i64-eq : (a : ℤ) → FitsI64 a → as_i64 a ≡ a
unfolding as_i64
as_i64-eq a h = wrap-eq_of_Fits half_i64 a h
