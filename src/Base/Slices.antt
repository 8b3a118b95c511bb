-- ===== src/Base/Slices.antt =====
-- Prefixes and suffixes of a list: the slices of the Rust sources.
use Prim.Native.Nat.{ℕ, zero, suc, ◌+◌, ◌-◌, ◌≤◌}
use mathlib.Core.Path.{◌≡◌, refl, sym, ap, ◌∙◌}
use mathlib.Core.List.{List, [], ◌∷◌, ◌++◌}
use native.Mathlib.Omega.{arith}
use orderbook_replay_lab.Base.Lists.{length, take, drop}

pub suc_add : (n m : ℕ) → suc n + m ≡ suc (n + m)
suc_add n m = omega arith

module _ {ℓ} {A : Type ℓ} where
  pub length-drop : (n : ℕ) (xs : List A) → length (drop n xs) ≡ length xs - n
  length-drop zero xs = omega arith
  length-drop (suc n) [] = omega arith
  length-drop (suc n) (x ∷ xs) = omega (arith, length-drop n xs)

  pub length-take : (n : ℕ) (xs : List A) → n ≤ length xs → length (take n xs) ≡ n
  length-take zero xs h = refl
  length-take (suc n) [] h = absurd (omega arith)
  length-take (suc n) (x ∷ xs) h = ap suc (length-take n xs (omega arith))

  pub take-nil : (n : ℕ) → take {A = A} n [] ≡ []
  take-nil zero = refl
  take-nil (suc n) = refl

  pub drop-nil : (n : ℕ) → drop {A = A} n [] ≡ []
  drop-nil zero = refl
  drop-nil (suc n) = refl

  pub drop-drop : (m n : ℕ) (xs : List A) → drop m (drop n xs) ≡ drop (n + m) xs
  drop-drop m zero xs = ground arith
  drop-drop m (suc n) [] = rw (drop-nil m, drop-nil (suc n + m)) refl
  drop-drop m (suc n) (x ∷ xs) = rw (suc_add n m) (drop-drop m n xs)

  pub take_then_take : (m k : ℕ) (xs : List A) → take m xs ++ take k (drop m xs) ≡ take (m + k) xs
  take_then_take zero k xs = ground arith
  take_then_take (suc m) k [] = rw (take-nil k, take-nil (suc m + k)) refl
  take_then_take (suc m) k (x ∷ xs) = rw (suc_add m k) (ap (x ∷◌) (take_then_take m k xs))

  pub take_then_drop : (n : ℕ) (xs : List A) → take n xs ++ drop n xs ≡ xs
  take_then_drop zero xs = refl
  take_then_drop (suc n) [] = refl
  take_then_drop (suc n) (x ∷ xs) = ap (x ∷◌) (take_then_drop n xs)

  pub take_all : (xs ys : List A) → take (length xs) (xs ++ ys) ≡ xs
  take_all [] ys = refl
  take_all (x ∷ xs) ys = ap (x ∷◌) (take_all xs ys)

  pub drop_all : (xs ys : List A) → drop (length xs) (xs ++ ys) ≡ ys
  drop_all [] ys = refl
  drop_all (x ∷ xs) ys = drop_all xs ys

  -- Slices behind a prefix of known length.
  pub take_past : (k n : ℕ) (p xs : List A) → length p ≡ k → take (k + n) (p ++ xs) ≡ p ++ take n xs
  take_past k n p xs h =
      ap (λ i. take (i + n) (p ++ xs)) (sym h)
      ∙ sym (take_then_take (length p) n (p ++ xs))
      ∙ rw (take_all p xs, drop_all p xs) refl

  pub drop_past : (k n : ℕ) (p xs : List A) → length p ≡ k → drop (k + n) (p ++ xs) ≡ drop n xs
  drop_past k n p xs h =
      ap (λ i. drop (i + n) (p ++ xs)) (sym h)
      ∙ sym (drop-drop n (length p) (p ++ xs))
      ∙ ap (drop n) (drop_all p xs)

  pub take_just : (k : ℕ) (p xs : List A) → length p ≡ k → take k (p ++ xs) ≡ p
  take_just k p xs h = ap (λ i. take i (p ++ xs)) (sym h) ∙ take_all p xs

  pub drop_just : (k : ℕ) (p xs : List A) → length p ≡ k → drop k (p ++ xs) ≡ xs
  drop_just k p xs h = ap (λ i. drop i (p ++ xs)) (sym h) ∙ drop_all p xs
