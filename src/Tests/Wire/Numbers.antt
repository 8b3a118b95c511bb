-- ===== src/Tests/Wire/Numbers.antt =====
-- Numbers as bytes, for the crates of the tests.
use orderbook_replay_lab.Base.{
  ℕ, zero, suc, ◌+◌, ◌*◌, ◌%◌, ◌^◌, ◌<◌, ◌≡◌, refl, ap, [], ◌∷◌, arith, length, ℤ, pos, negsuc,
  nat_eq, text_eq, All, FitsI64, ◌/◌, u64_mod,
}
use orderbook_replay_lab.Codec.Defs.{Bytes}
use orderbook_replay_lab.Codec.Defs.{from_le_bytes}
use orderbook_replay_lab.Codec.Frame.{le_bytes_round_trip}

-- A number as its four lowest bytes and the next four, behind as many ones as the rest counts.
pub get_half : Bytes → ℕ × Bytes
get_half (a ∷ b ∷ c ∷ d ∷ bs) = (from_le_bytes a b c d, bs)
get_half _ = (0, [])

pub put_half : ℕ → Bytes → Bytes
put_half n bs = n % 256 ∷ n / 256 % 256 ∷ n / 65536 % 256 ∷ n / 16777216 % 256 ∷ bs

pub get_half-put_half : (n : ℕ) (bs : Bytes) → n < 2 ^ 32 → get_half (put_half n bs) ≡ (n, bs)
unfolding get_half put_half
get_half-put_half n bs h = rw (le_bytes_round_trip n h) refl

pub put_rest : ℕ → Bytes → Bytes
put_rest zero bs = 0 ∷ bs
put_rest (suc n) bs = 1 ∷ put_rest n bs

pub get_rest : Bytes → ℕ × Bytes
get_rest [] = (0, [])
get_rest (zero ∷ bs) = (0, bs)
get_rest (suc k ∷ bs) = let (n, bs') = get_rest bs in (n + 1, bs')

pub get_rest-put_rest : (n : ℕ) (bs : Bytes) → get_rest (put_rest n bs) ≡ (n, bs)
unfolding get_rest put_rest
get_rest-put_rest zero bs = refl
get_rest-put_rest (suc n) bs = rw (get_rest-put_rest n bs) (ap (λ k. (k, bs)) (omega arith))

pub length-put_rest : (n : ℕ) (bs : Bytes) → length (put_rest n bs) ≡ n + 1 + length bs
unfolding put_rest
length-put_rest zero bs = omega arith
length-put_rest (suc n) bs = omega (arith, length-put_rest n bs)

pub put_nat : ℕ → Bytes → Bytes
put_nat n bs = put_rest (n / u64_mod) (put_half (n % 2 ^ 32) (put_half (n / 2 ^ 32 % 2 ^ 32) bs))

pub get_nat : Bytes → ℕ × Bytes
get_nat bs =
    let (rest, bs1) = get_rest bs in
    let (low, bs2) = get_half bs1 in
    let (high, bs3) = get_half bs2 in (low + 2 ^ 32 * high + u64_mod * rest, bs3)

pub halves : (n : ℕ) → n % 2 ^ 32 + 2 ^ 32 * (n / 2 ^ 32 % 2 ^ 32) + u64_mod * (n / u64_mod) ≡ n
halves n = omega arith

pub get_nat-put_nat : (n : ℕ) (bs : Bytes) → get_nat (put_nat n bs) ≡ (n, bs)
unfolding get_nat put_nat
get_nat-put_nat n bs =
    let high = put_half (n / 2 ^ 32 % 2 ^ 32) bs in
    rw
      (
        get_rest-put_rest (n / u64_mod) (put_half (n % 2 ^ 32) high),
        get_half-put_half (n % 2 ^ 32) high (omega arith),
        get_half-put_half (n / 2 ^ 32 % 2 ^ 32) bs (omega arith),
      )
      (ap (λ k. (k, bs)) (halves n))

pub length-put_nat : (n : ℕ) (bs : Bytes) → n < u64_mod → length (put_nat n bs) ≡ 9 + length bs
unfolding put_nat put_half
length-put_nat n bs h = omega (
  arith,
  length-put_rest (n / u64_mod) (put_half (n % 2 ^ 32) (put_half (n / 2 ^ 32 % 2 ^ 32) bs)),
)

abbrev pub put_int : ℤ → Bytes → Bytes
put_int (pos n) bs = 0 ∷ put_nat n bs
put_int (negsuc n) bs = 1 ∷ put_nat n bs

abbrev pub get_int : Bytes → ℤ × Bytes
get_int [] = (pos 0, [])
get_int (zero ∷ bs) = let (n, bs') = get_nat bs in (pos n, bs')
get_int (suc k ∷ bs) = let (n, bs') = get_nat bs in (negsuc n, bs')

pub get_int-put_int : (z : ℤ) (bs : Bytes) → get_int (put_int z bs) ≡ (z, bs)
get_int-put_int (pos n) bs = rw (get_nat-put_nat n bs) refl
get_int-put_int (negsuc n) bs = rw (get_nat-put_nat n bs) refl

pub length-put_int : (z : ℤ) (bs : Bytes) → FitsI64 z → length (put_int z bs) ≡ 10 + length bs
length-put_int (pos n) bs h = omega (arith, length-put_nat n bs (omega (arith, h)))
length-put_int (negsuc n) bs h = omega (arith, length-put_nat n bs (omega (arith, h)))

abbrev pub AreBytes : Bytes → Type 0
AreBytes bs = All (λ b. b < 256) bs

pub put_rest-AreBytes : (n : ℕ) (bs : Bytes) → AreBytes bs → AreBytes (put_rest n bs)
unfolding put_rest
put_rest-AreBytes zero bs h = (omega arith, h)
put_rest-AreBytes (suc n) bs h = (omega arith, put_rest-AreBytes n bs h)

pub put_half-AreBytes : (n : ℕ) (bs : Bytes) → AreBytes bs → AreBytes (put_half n bs)
unfolding put_half
put_half-AreBytes n bs h = (omega arith, (omega arith, (omega arith, (omega arith, h))))

pub put_nat-AreBytes : (n : ℕ) (bs : Bytes) → AreBytes bs → AreBytes (put_nat n bs)
unfolding put_nat
put_nat-AreBytes n bs h =
    let high = put_half (n / 2 ^ 32 % 2 ^ 32) bs in
    put_rest-AreBytes (n / u64_mod) (put_half (n % 2 ^ 32) high)
      (put_half-AreBytes (n % 2 ^ 32) high (put_half-AreBytes (n / 2 ^ 32 % 2 ^ 32) bs h))

pub put_int-AreBytes : (z : ℤ) (bs : Bytes) → AreBytes bs → AreBytes (put_int z bs)
put_int-AreBytes (pos n) bs h = (omega arith, put_nat-AreBytes n bs h)
put_int-AreBytes (negsuc n) bs h = (omega arith, put_nat-AreBytes n bs h)
