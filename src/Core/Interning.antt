-- ===== src/Core/Interning.antt =====
-- The symbol table of core/src/lib.rs: its two maps agree.
use orderbook_replay_lab.Base.{
  ℕ, zero, suc, ◌%◌, ◌^◌, ◌<◌, ◌≡◌, refl, subst, ◌∙◌, ◌↔◌, inl, inr, Option, none, some, List, [],
  ◌∷◌, ◌++◌, arith, ◌==◌, if◌then◌else◌, Bool-cases, length, get_elem?, get_elem?-lt, nat_eq, Text,
  text_eq, list_beq, list_beq_iff,
}
use orderbook_replay_lab.Base.Assoc.{lookup, lookup-insert}
use orderbook_replay_lab.Core.Text.{trim}
use orderbook_replay_lab.Core.Types.{SymbolId}
use orderbook_replay_lab.Core.Symbols.{SymbolTable, empty, len, intern_trimmed, intern, try_resolve}

-- A text is found under an id exactly when the id resolves to it.
abbrev pub IsValid : SymbolTable → Type 0
IsValid t =
    (s : Text) (id : SymbolId) → (lookup s t.by_text ≡ some id) ↔ (try_resolve t id ≡ some s)

-- A read of a list with one element more at the end.
get_elem?-push :
    (xs : List Text) (x : Text) (i : ℕ)
    → get_elem? (xs ++ x ∷ []) i ≡ (if i == length xs then some x else get_elem? xs i)
get_elem?-push [] x zero = refl
get_elem?-push [] x (suc i) = ground arith
get_elem?-push (y ∷ xs) x zero = ground arith
get_elem?-push (y ∷ xs) x (suc i) = get_elem?-push xs x i ∙ ground arith

find-add :
    (t : SymbolTable) (text s : Text) (id : SymbolId)
    → len t < 2 ^ 32
    → lookup s (intern_trimmed t text none).0.by_text
      ≡ (if list_beq text s then some (len t) else lookup s t.by_text)
unfolding len intern_trimmed
find-add t text s id room = lookup-insert s text (length t.by_id % 2 ^ 32) t.by_text ∙ ground arith

pub resolve-add :
    (t : SymbolTable) (text : Text) (id : SymbolId)
    → try_resolve (intern_trimmed t text none).0 id
      ≡ (if id == len t then some text else try_resolve t id)
unfolding len intern_trimmed try_resolve
resolve-add t text id = get_elem?-push t.by_id text id

resolve-lt : (t : SymbolTable) (id : SymbolId) (s : Text) → try_resolve t id ≡ some s → id < len t
unfolding len try_resolve
resolve-lt t id s h = get_elem?-lt t.by_id id h

add-IsValid :
    (t : SymbolTable) (text : Text)
    → IsValid t
    → len t < 2 ^ 32
    → lookup text t.by_text ≡ none
    → IsValid (intern_trimmed t text none).0
add-IsValid t text v room unknown s id =
    rw (find-add t text s id room, resolve-add t text id)
      (elim (Bool-cases (list_beq text s)) [
        | inl same ↦
            (let e = (list_beq_iff text s).0 same in
              let missing : lookup s t.by_text ≡ none =
                subst (λ x. lookup x t.by_text ≡ none) e unknown in
              rw same (ground (arith, e, missing, (v s id).1)))
        | inr other ↦
            (let apart = λ (e : text ≡ s). (list_beq_iff text s).1 e in
              rw other (ground (arith, apart, (v s id).0, (v s id).1, resolve-lt t id s)))
      ])

next_id : SymbolTable → SymbolId
next_id t = length t.by_id % 2 ^ 32

next_id-eq : (t : SymbolTable) → len t < 2 ^ 32 → next_id t ≡ len t
unfolding len next_id
next_id-eq t room = omega arith

intern_trimmed-resolves :
    (t : SymbolTable) (text : Text) (found : Option SymbolId)
    → IsValid t
    → len t < 2 ^ 32
    → lookup text t.by_text ≡ found
    → let (t', id) = intern_trimmed t text found in IsValid t' × (try_resolve t' id ≡ some text)
unfolding intern_trimmed next_id
intern_trimmed-resolves t text (some id) v room at = (v, (v text id).0 at)
intern_trimmed-resolves t text none v room at = (
  add-IsValid t text v room at,
  rw (resolve-add t text (next_id t)) (ground (arith, next_id-eq t room)),
)

intern_trimmed-keeps :
    (t : SymbolTable) (text : Text) (found : Option SymbolId) (old : SymbolId) (s : Text)
    → try_resolve t old ≡ some s
    → try_resolve (intern_trimmed t text found).0 old ≡ some s
unfolding intern_trimmed
intern_trimmed-keeps t text (some id) old s h = h
intern_trimmed-keeps t text none old s h =
    rw (resolve-add t text old) (ground (arith, h, resolve-lt t old s h))

-- Interning a text keeps the table valid, and the id that it returns resolves to the trimmed text.
-- The table is valid and holds fewer than 2 ^ 32 texts.
pub intern-resolves :
    (t : SymbolTable) (value : Text)
    → IsValid t
    → len t < 2 ^ 32
    → let (t', id) = intern t value in IsValid t' × (try_resolve t' id ≡ some (trim value))
unfolding intern
intern-resolves t value v room =
    intern_trimmed-resolves t (trim value) (lookup (trim value) t.by_text) v room refl

-- An id that resolves to a text still resolves to it after any text is interned.
pub intern-keeps :
    (t : SymbolTable) (value : Text) (old : SymbolId) (s : Text)
    → try_resolve t old ≡ some s
    → try_resolve (intern t value).0 old ≡ some s
unfolding intern
intern-keeps t value old s h =
    intern_trimmed-keeps t (trim value) (lookup (trim value) t.by_text) old s h

pub empty-IsValid : IsValid empty
unfolding empty lookup try_resolve
empty-IsValid s id = ground arith
