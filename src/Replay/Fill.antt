-- ===== src/Replay/Fill.antt =====
-- The loops of replay/src/lib.rs that fill a buffer from a file that may give fewer bytes than asked.
use orderbook_replay_lab.Base.{
  ℕ, zero, suc, ◌-◌, ◌≤◌, ◌<◌, ◌≡◌, refl, sym, ap, ◌∙◌, ◌⊎◌, inl, inr, false, [], ◌∷◌, ◌++◌, arith,
  ◌==◌, Bool-cases, length, take, drop, nat_eq, text_eq,
}
use orderbook_replay_lab.Base.Result.{ok}
use mathlib.Core.List.{append_assoc, append-nil}
use orderbook_replay_lab.Base.Slices.{
  length-drop, drop-drop, length-take, take_then_take, take_then_drop,
}
use orderbook_replay_lab.Codec.Defs.{Bytes, Crates}
use orderbook_replay_lab.Replay.Port.{Files}
use orderbook_replay_lab.Replay.Buffered.{Filled, full, short, fill}

-- A file that is read without errors: `rest` is what is left of it. A read gives some bytes from the
-- front, no more than asked, and none only if none are asked or none are left.
pub record Serves (F : Files) (rest : F.File → Bytes) : Type 0 where
  pub served : ℕ → F.File → ℕ
  pub given : (n : ℕ) (f : F.File) → (F.read n f).0 ≡ ok (take (served n f) (rest f))
  pub left : (n : ℕ) (f : F.File) → rest (F.read n f).1 ≡ drop (served n f) (rest f)
  pub asked : (n : ℕ) (f : F.File) → served n f ≤ n
  pub there : (n : ℕ) (f : F.File) → served n f ≤ length (rest f)
  pub some_if_any : (n : ℕ) (f : F.File) → (n ≡ 0) ⊎ (length (rest f) ≡ 0) ⊎ (0 < served n f)

nil_of_length : (bs : Bytes) → length bs ≡ 0 → bs ≡ []
nil_of_length [] h = refl
nil_of_length (b ∷ bs) h = absurd (omega arith)

module _ (F : Files) (X : Crates) (rest : F.File → Bytes) (laws : Serves F rest) where
  fill-step :
      (rounds wanted : ℕ) (buf bs : Bytes) (f : F.File)
      → (wanted == 0) ≡ false
      → (F.read wanted f).0 ≡ ok bs
      → 0 < length bs
      → fill F X (suc rounds) wanted buf f
        ≡ fill F X rounds (wanted - length bs) (buf ++ bs) (F.read wanted f).1
  unfolding fill
  fill-step rounds wanted buf [] f more got h = absurd (omega arith)
  fill-step rounds wanted buf (b ∷ bs) f more got h = rw (more, got) refl

  fill-end :
      (rounds wanted : ℕ) (buf : Bytes) (f : F.File)
      → (wanted == 0) ≡ false
      → (F.read wanted f).0 ≡ ok []
      → fill F X (suc rounds) wanted buf f ≡ (short buf, (F.read wanted f).1)
  unfolding fill
  fill-end rounds wanted buf f more got = rw (more, got) refl

  fill-none : (rounds : ℕ) (buf : Bytes) (f : F.File) → fill F X rounds 0 buf f ≡ (full buf, f)
  unfolding fill
  fill-none zero buf f = refl
  fill-none (suc rounds) buf f = refl

  -- What a filled buffer is, and what is left of the file.
  abbrev pub Fills : Filled F.IoError × F.File → ℕ → Bytes → Bytes → Type 0
  Fills (result, f') wanted buf bytes =
      (result ≡ full (buf ++ take wanted bytes)) × (rest f' ≡ drop wanted bytes)

  fill_nothing :
      (rounds wanted : ℕ) (buf : Bytes) (f : F.File)
      → wanted ≡ 0
      → Fills (fill F X rounds wanted buf f) wanted buf (rest f)
  fill_nothing rounds wanted buf f e =
      rw (e, fill-none rounds buf f) (ap full (sym (append-nil buf)), refl)

  -- What a read gives, and what is left after it.
  abbrev got : ℕ → F.File → Bytes
  got n f = take (laws.served n f) (rest f)

  length-got : (n : ℕ) (f : F.File) → length (got n f) ≡ laws.served n f
  length-got n f = length-take (laws.served n f) (rest f) (laws.there n f)

  rejoin :
      (buf bytes left : Bytes) (k wanted : ℕ)
      → left ≡ drop k bytes
      → k ≤ wanted
      → (buf ++ take k bytes) ++ take (wanted - k) left ≡ buf ++ take wanted bytes
  rejoin buf bytes left k wanted e h = rw e (
      append_assoc buf (take k bytes) (take (wanted - k) (drop k bytes))
      ∙ ap (λ xs. buf ++ xs)
          (take_then_take k (wanted - k) bytes ∙ ap (λ n. take n bytes) (omega arith)))

  unread :
      (bytes left : Bytes) (k wanted : ℕ)
      → left ≡ drop k bytes
      → k ≤ wanted
      → drop (wanted - k) left ≡ drop wanted bytes
  unread bytes left k wanted e h =
      rw e (drop-drop (wanted - k) k bytes ∙ ap (λ n. drop n bytes) (omega arith))

  -- A wanted number of bytes that is left is read, in rounds of any sizes.
  pub fill-Fills :
      (rounds wanted : ℕ) (buf : Bytes) (f : F.File)
      → wanted ≤ rounds
      → wanted ≤ length (rest f)
      → Fills (fill F X rounds wanted buf f) wanted buf (rest f)
  fill-Fills zero wanted buf f enough there = fill_nothing zero wanted buf f (omega arith)
  fill-Fills (suc rounds) wanted buf f enough there = elim (Bool-cases (wanted == 0)) [
    | inl done ↦ fill_nothing (suc rounds) wanted buf f (ground (arith, done))
    | inr more ↦
        (let k = laws.served wanted f in
          let f' = (F.read wanted f).1 in
          let some_bytes : 0 < k = ground (arith, more, laws.some_if_any wanted f) in
          let step =
            fill-step rounds wanted buf (got wanted f) f more (laws.given wanted f)
              (omega (arith, length-got wanted f)) in
          let ih =
            fill-Fills rounds (wanted - length (got wanted f)) (buf ++ got wanted f) f'
              (omega (arith, length-got wanted f))
              (omega (
                arith,
                length-got wanted f,
                ap length (laws.left wanted f),
                length-drop k (rest f),
                laws.there wanted f,
              )) in
          rw step (
            ih.0
                ∙ ap full (
                    ap (λ n. (buf ++ got wanted f) ++ take (wanted - n) (rest f'))
                      (length-got wanted f)
                    ∙ rejoin buf (rest f) (rest f') k wanted (laws.left wanted f)
                        (laws.asked wanted f)),
            ih.1
                ∙ ap (λ n. drop (wanted - n) (rest f')) (length-got wanted f)
                ∙ unread (rest f) (rest f') k wanted (laws.left wanted f) (laws.asked wanted f),
          ))
  ]

  -- If fewer are left, all that are left are read, and then the end of the file is met.
  pub fill-short :
      (rounds wanted : ℕ) (buf : Bytes) (f : F.File)
      → wanted ≤ rounds
      → length (rest f) < wanted
      → (fill F X rounds wanted buf f).0 ≡ short (buf ++ rest f)
  fill-short zero wanted buf f enough few = absurd (omega arith)
  fill-short (suc rounds) wanted buf f enough few = elim (Bool-cases (laws.served wanted f == 0)) [
    | inl ended ↦
        (let none_left : length (rest f) ≡ 0 = ground (arith, ended, laws.some_if_any wanted f) in
          let gone : rest f ≡ [] = nil_of_length (rest f) none_left in
          let nothing : got wanted f ≡ [] =
            nil_of_length (got wanted f) (ground (arith, ended, length-got wanted f)) in
          rw (fill-end rounds wanted buf f (ground arith) (laws.given wanted f ∙ ap ok nothing))
            (ap short (sym (append-nil buf) ∙ ap (λ xs. buf ++ xs) (sym gone))))
    | inr more ↦
        (let k = laws.served wanted f in
          let f' = (F.read wanted f).1 in
          let left = ap length (laws.left wanted f) ∙ length-drop k (rest f) in
          let ih =
            fill-short rounds (wanted - length (got wanted f)) (buf ++ got wanted f) f'
              (ground (arith, more, length-got wanted f))
              (omega (arith, left, length-got wanted f, laws.there wanted f)) in
          rw
            (fill-step rounds wanted buf (got wanted f) f (ground arith) (laws.given wanted f)
              (ground (arith, more, length-got wanted f)))
            (ih
              ∙ ap short (
                  append_assoc buf (got wanted f) (rest f')
                  ∙ ap (λ xs. buf ++ xs)
                      (ap (λ xs. got wanted f ++ xs) (laws.left wanted f)
                        ∙ take_then_drop k (rest f)))))
  ]
