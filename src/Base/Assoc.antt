-- ===== src/Base/Assoc.antt =====
-- Rust's `HashMap` as an association list whose order means nothing: an insertion replaces the
-- entry of its key, and a removal takes out the entry of its key.
use Prim.Native.Nat.{ℕ, ◌+◌, ◌≤◌}
use mathlib.Core.Path.{◌≡◌, refl}
use mathlib.Core.Bool.{Bool, true}
use mathlib.Core.Option.{Option, none, some}
use mathlib.Core.List.{List, [], ◌∷◌}
use native.Mathlib.Omega.{arith}
use orderbook_replay_lab.Base.Tests.{if◌then◌else◌}
use orderbook_replay_lab.Base.Equality.{Eq}

abbrev pub Assoc {ℓ κ} : Type ℓ → Type κ → Type (ℓ ⊔ κ)
Assoc K V = List (K × V)

module _ {ℓ κ} {K : Type ℓ} {V : Type κ} ⦃e : Eq K⦄ where
  -- `get`
  unfoldable pub lookup : K → Assoc K V → Option V
  lookup k [] = none
  lookup k ((j, v) ∷ m) = if e.beq k j then some v else lookup k m

  -- `remove`
  unfoldable pub erase : K → Assoc K V → Assoc K V
  erase k [] = []
  erase k ((j, v) ∷ m) = if e.beq k j then erase k m else (j, v) ∷ erase k m

  -- `insert`
  unfoldable pub insert : K → V → Assoc K V → Assoc K V
  insert k v m = (k, v) ∷ erase k m

  -- A read after a removal.
  pub lookup-erase :
      (j k : K) (m : Assoc K V) → lookup j (erase k m) ≡ (if e.beq k j then none else lookup j m)
  unfolding lookup erase
  lookup-erase j k [] = ground arith
  lookup-erase j k ((i, v) ∷ m) =
      ground (arith, lookup-erase j k m, e.beq_iff k j, e.beq_iff k i, e.beq_iff j i)

  -- A read after a write.
  pub lookup-insert :
      (j k : K) (v : V) (m : Assoc K V)
      → lookup j (insert k v m) ≡ (if e.beq k j then some v else lookup j m)
  unfolding insert lookup
  lookup-insert j k v m = ground (arith, lookup-erase j k m, e.beq_iff k j, e.beq_iff j k)

  -- No key stands twice.
  abbrev pub Unique : Assoc K V → Type κ
  Unique [] = Unit
  Unique ((k, v) ∷ m) = (lookup k m ≡ none) × Unique m

  pub erase-Unique : (k : K) (m : Assoc K V) → Unique m → Unique (erase k m)
  unfolding erase
  erase-Unique k [] u = u
  erase-Unique k ((j, v) ∷ m) u = ground (arith, erase-Unique k m u.1, lookup-erase j k m)

  pub insert-Unique : (k : K) (v : V) (m : Assoc K V) → Unique m → Unique (insert k v m)
  unfolding insert
  insert-Unique k v m u =
      (ground (arith, lookup-erase k k m, (e.beq_iff k k).1 refl), erase-Unique k m u)

  -- A removal of a key that is not there changes nothing.
  pub erase_absent : (k : K) (m : Assoc K V) → lookup k m ≡ none → erase k m ≡ m
  unfolding erase lookup
  erase_absent k [] h = refl
  erase_absent k ((j, v) ∷ m) h = ground (arith, erase_absent k m)

  -- How many entries pass a test.
  unfoldable pub count : (V → Bool) → Assoc K V → ℕ
  count p [] = 0
  count p ((k, v) ∷ m) = (if p v then 1 else 0) + count p m

  pub count-erase :
      (p : V → Bool) (k : K) (v : V) (m : Assoc K V)
      → Unique m
      → lookup k m ≡ some v
      → count p m ≡ (if p v then 1 else 0) + count p (erase k m)
  unfolding count erase lookup
  count-erase p k v [] u h = ground arith
  count-erase p k v ((j, w) ∷ m) u h =
      ground (arith, count-erase p k v m u.1, erase_absent k m, e.beq_iff k j)

  -- A write to a new key adds its entry.
  pub count-insert_new :
      (p : V → Bool) (k : K) (v : V) (m : Assoc K V)
      → lookup k m ≡ none
      → count p (insert k v m) ≡ (if p v then 1 else 0) + count p m
  unfolding count insert
  count-insert_new p k v m h = rw (erase_absent k m h)

  -- A write to a known key replaces its entry.
  pub count-insert_old :
      (p : V → Bool) (k : K) (v w : V) (m : Assoc K V)
      → Unique m
      → lookup k m ≡ some w
      → count p (insert k v m) + (if p w then 1 else 0) ≡ (if p v then 1 else 0) + count p m
  unfolding count insert
  count-insert_old p k v w m u h = omega (arith, count-erase p k w m u h)

  -- No test passes more entries than there are.
  pub count-le : (p : V → Bool) (m : Assoc K V) → count p m ≤ count (λ v. true) m
  unfolding count
  count-le p [] = omega arith
  count-le p ((k, v) ∷ m) = ground (arith, count-le p m)
