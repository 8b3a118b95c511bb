-- ===== src/Core/Tables.antt =====
-- core/src/lib.rs: `SymbolTable::try_from_symbols` makes tables that are valid and trimmed.
use orderbook_replay_lab.Base.{
  ℕ, ◌+◌, ◌^◌, ◌<◌, ◌≤◌, ◌≡◌, refl, sym, ap, subst, ◌∙◌, ◌≢◌, inl, inr, Option, none, some, List,
  [], ◌∷◌, Text, if◌then◌else◌, Bool-cases, arith, length, length-append, ◌==◌, nat_eq, text_eq,
}
use orderbook_replay_lab.Base.Result.{ok, err, ok_inj, err_not_ok, bind-ok}
use orderbook_replay_lab.Base.Assoc.{lookup}
use orderbook_replay_lab.Core.Text.{trim}
use orderbook_replay_lab.Core.Trimming.{trim-trim}
use orderbook_replay_lab.Core.Types.{invalid_symbol, SymbolId}
use orderbook_replay_lab.Core.Symbols.{
  SymbolTable, empty, len, intern_trimmed, intern, try_intern, intern_all, try_from_symbols,
  try_resolve,
}
use orderbook_replay_lab.Core.Interning.{IsValid, empty-IsValid, intern-resolves, resolve-add}

-- The texts of a table are trimmed and not empty.
abbrev pub IsTrimmed : SymbolTable → Type 0
IsTrimmed t =
    (id : SymbolId) (text : Text) → try_resolve t id ≡ some text → (trim text ≡ text) × (text ≢ [])

the_text : Option Text → Text
the_text none = []
the_text (some text) = text

some_text : (s text : Text) → some s ≡ some text → s ≡ text
unfolding the_text
some_text s text h = ap the_text h

intern_trimmed-IsTrimmed :
    (t : SymbolTable) (text : Text) (found : Option SymbolId)
    → trim text ≡ text
    → text ≢ []
    → IsTrimmed t
    → IsTrimmed (intern_trimmed t text found).0
unfolding intern_trimmed
intern_trimmed-IsTrimmed t text (some old) fits full h id s known = h id s known
intern_trimmed-IsTrimmed t text none fits full h id s known = after (resolve-add t text id)
  where
    after :
        try_resolve (intern_trimmed t text none).0 id
          ≡ (if id == len t then some text else try_resolve t id)
        → (trim s ≡ s) × (s ≢ [])
    after added = elim (Bool-cases (id == len t)) [
      | inl new ↦
          (let same : text ≡ s = some_text text s (sym (added ∙ rw new refl) ∙ known) in
            subst (λ x. (trim x ≡ x) × (x ≢ [])) same (fits, full))
      | inr old ↦ h id s (sym (added ∙ rw old refl) ∙ known)
    ]

len-intern_trimmed :
    (t : SymbolTable) (text : Text) (found : Option SymbolId)
    → len (intern_trimmed t text found).0 ≤ len t + 1
unfolding len intern_trimmed
len-intern_trimmed t text (some id) = omega arith
len-intern_trimmed t text none = omega (arith, length-append t.by_id (text ∷ []))

-- A table that is valid and trimmed.
abbrev pub IsSound : SymbolTable → Type 0
IsSound t = IsValid t × IsTrimmed t

intern-IsSound :
    (t : SymbolTable) (value : Text)
    → trim value ≢ []
    → IsSound t
    → len t < 2 ^ 32
    → let t' = (intern t value).0 in IsSound t' × (len t' ≤ len t + 1)
unfolding intern
intern-IsSound t value full s room =
    let found = lookup (trim value) t.by_text in
    (
      (
        (intern-resolves t value s.0 room).0,
        intern_trimmed-IsTrimmed t (trim value) found (trim-trim value) full s.1,
      ),
      len-intern_trimmed t (trim value) found,
    )

try_intern-blank :
    (t : SymbolTable) (value : Text)
    → trim value ≡ []
    → try_intern t value ≡ err (invalid_symbol value)
unfolding try_intern
try_intern-blank t value e = rw (try_intern, e) refl

try_intern-full :
    (t : SymbolTable) (value : Text) (c : ℕ) (text : Text)
    → trim value ≡ c ∷ text
    → try_intern t value ≡ ok (intern t (trim value))
unfolding try_intern
try_intern-full t value c text e = rw (try_intern, e) (ap (λ x. ok (intern t x)) e)

try_intern-IsSound :
    (t : SymbolTable) (value : Text) (r : SymbolTable × SymbolId) (text : Text)
    → trim value ≡ text
    → try_intern t value ≡ ok r
    → IsSound t
    → len t < 2 ^ 32
    → IsSound r.0 × (len r.0 ≤ len t + 1)
try_intern-IsSound t value r [] e h s room =
    err_not_ok (invalid_symbol value) r (sym (try_intern-blank t value e) ∙ h)
try_intern-IsSound t value r (c ∷ text) e h s room =
    let full : trim (trim value) ≢ [] =
      rw (trim-trim value, e) (λ e'. absurd (ground (arith, e'))) in
    let same : intern t (trim value) ≡ r =
      ok_inj (intern t (trim value)) r (sym (try_intern-full t value c text e) ∙ h) in
    subst (λ p. IsSound p.0 × (len p.0 ≤ len t + 1)) same
      (intern-IsSound t (trim value) full s room)

intern_all-IsSound :
    (t : SymbolTable) (symbols : List Text) (t' : SymbolTable)
    → intern_all t symbols ≡ ok t'
    → IsSound t
    → len t + length symbols < 2 ^ 32
    → IsSound t'
unfolding intern_all
intern_all-IsSound t [] t' h s room = subst IsSound (ok_inj t t' h) s
intern_all-IsSound t (symbol ∷ symbols) t' h s room =
    let (r, first, rest) = bind-ok (try_intern t symbol) _ t' h in
    let (sound, grown) = try_intern-IsSound t symbol r (trim symbol) refl first s (omega arith) in
    intern_all-IsSound r.0 symbols t' rest sound (omega (arith, grown))

empty-IsTrimmed : IsTrimmed empty
unfolding empty try_resolve
empty-IsTrimmed id text h = absurd (ground (arith, h))

-- A table that is made from predeclared symbols is valid, and its texts are trimmed and not empty.
-- There are fewer than 2 ^ 32 symbols.
pub try_from_symbols-IsSound :
    (symbols : List Text) (t : SymbolTable)
    → try_from_symbols symbols ≡ ok t
    → length symbols < 2 ^ 32
    → IsSound t
unfolding try_from_symbols empty len
try_from_symbols-IsSound symbols t h room =
    intern_all-IsSound empty symbols t h (empty-IsValid, empty-IsTrimmed) (omega arith)

first_text : (x : Text) → try_resolve (intern empty x).0 0 ≡ some (trim x)
unfolding try_resolve intern intern_trimmed empty lookup
first_text x = refl

first_found :
    (value : Text) (r : SymbolTable × SymbolId) (text : Text)
    → trim value ≡ text
    → try_intern empty value ≡ ok r
    → try_resolve r.0 0 ≡ some (trim value)
first_found value r [] e h =
    err_not_ok (invalid_symbol value) r (sym (try_intern-blank empty value e) ∙ h)
first_found value r (c ∷ text) e h =
    let same : intern empty (trim value) ≡ r =
      ok_inj (intern empty (trim value)) r (sym (try_intern-full empty value c text e) ∙ h) in
    subst (λ p. try_resolve p.0 0 ≡ some (trim value)) same
      (first_text (trim value) ∙ ap some (trim-trim value))

-- The table of one symbol resolves its first id to the trimmed text.
pub try_from_symbols-first :
    (symbol : Text) (t : SymbolTable)
    → try_from_symbols (symbol ∷ []) ≡ ok t
    → try_resolve t 0 ≡ some (trim symbol)
unfolding try_from_symbols intern_all
try_from_symbols-first symbol t h =
    let (r, found, rest) = bind-ok (try_intern empty symbol) _ t h in
    subst (λ x. try_resolve x 0 ≡ some (trim symbol)) (ok_inj r.0 t rest)
      (first_found symbol r (trim symbol) refl found)
