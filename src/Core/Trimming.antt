-- ===== src/Core/Trimming.antt =====
-- core/src/lib.rs: trimming a text twice is trimming it once, so the texts of a table are trimmed.
use orderbook_replay_lab.Base.{
  ◌≡◌, refl, sym, ap, subst, ◌∙◌, false, inl, inr, [], ◌∷◌, ◌++◌, Text, Bool-cases, nat_eq,
}
use mathlib.Core.List.{reverse, reverse-append, reverse-reverse}
use orderbook_replay_lab.Core.Text.{is_whitespace, trim_start, trim}

-- A text that does not begin with whitespace.
abbrev StartsClean : Text → Type 0
StartsClean [] = Unit
StartsClean (c ∷ s) = is_whitespace c ≡ false

trim_start-clean : (s : Text) → StartsClean s → trim_start s ≡ s
unfolding trim_start
trim_start-clean [] h = refl
trim_start-clean (c ∷ s) h = rw h refl

trim_start-StartsClean : (s : Text) → StartsClean (trim_start s)
unfolding trim_start
trim_start-StartsClean [] = tt
trim_start-StartsClean (c ∷ s) = elim (Bool-cases (is_whitespace c)) [
  | inl white ↦ rw white (trim_start-StartsClean s)
  | inr clean ↦ rw clean clean
]

-- What is trimmed off the front.
trim_start-suffix : (s : Text) → (p : Text) × (s ≡ p ++ trim_start s)
unfolding trim_start
trim_start-suffix [] = ([], refl)
trim_start-suffix (c ∷ s) = elim (Bool-cases (is_whitespace c)) [
  | inl white ↦ (let (p, e) = trim_start-suffix s in (c ∷ p, rw white (ap (c ∷◌) e)))
  | inr clean ↦ ([], rw clean refl)
]

prefix-StartsClean : (p s : Text) → StartsClean (p ++ s) → StartsClean p
prefix-StartsClean [] s h = tt
prefix-StartsClean (c ∷ p) s h = h

-- The front stays clean when the back is trimmed.
trim-StartsClean : (s : Text) → StartsClean (trim s)
unfolding trim
trim-StartsClean s =
    let u = trim_start s in
    let (p, e) = trim_start-suffix (reverse u) in
    let w = trim_start (reverse u) in
    let whole : u ≡ reverse w ++ reverse p =
      sym (reverse-reverse u) ∙ ap reverse e ∙ reverse-append p w in
    prefix-StartsClean (reverse w) (reverse p) (subst StartsClean whole (trim_start-StartsClean s))

-- A text that is trimmed is its own trim.
pub trim-trim : (s : Text) → trim (trim s) ≡ trim s
unfolding trim
trim-trim s =
    let w = trim_start (reverse (trim_start s)) in
    ap (λ x. reverse (trim_start (reverse x))) (trim_start-clean (reverse w) (trim-StartsClean s))
    ∙ ap (λ x. reverse (trim_start x)) (reverse-reverse w)
    ∙ ap reverse (trim_start-clean w (trim_start-StartsClean (reverse (trim_start s))))
