-- ===== src/Core/Symbols.antt =====
-- core/src/lib.rs: the symbol table, which interns texts as consecutive ids.
use orderbook_replay_lab.Base.{
  ℕ, ◌%◌, ◌^◌, List, [], ◌∷◌, ◌++◌, Text, Option, none, some, length, get_elem?, text_eq,
}
use orderbook_replay_lab.Base.Result.{Result, ok, err, ◌>>=◌}
use orderbook_replay_lab.Base.Assoc.{Assoc, lookup, insert}
use orderbook_replay_lab.Core.Text.{trim, codes}
use orderbook_replay_lab.Core.Types.{CoreError, invalid_symbol, SymbolId}

pub record SymbolTable : Type 0 where
  pub by_text : Assoc Text SymbolId
  pub by_id : List Text

unfoldable pub empty : SymbolTable
empty = record { by_text = []; by_id = [] }

unfoldable pub len : SymbolTable → ℕ
len t = length t.by_id

unfoldable pub intern_trimmed : SymbolTable → Text → Option SymbolId → SymbolTable × SymbolId
intern_trimmed t trimmed (some symbol_id) = (t, symbol_id)
intern_trimmed t trimmed none =
    let symbol_id = length t.by_id % 2 ^ 32 in
    (
      record { by_text = insert trimmed symbol_id t.by_text; by_id = t.by_id ++ trimmed ∷ [] },
      symbol_id,
    )

-- `intern` takes a table and returns it with the id.
unfoldable pub intern : SymbolTable → Text → SymbolTable × SymbolId
unfolding intern_trimmed
intern t value = let trimmed = trim value in intern_trimmed t trimmed (lookup trimmed t.by_text)

unfoldable pub try_intern : SymbolTable → Text → Result CoreError (SymbolTable × SymbolId)
try_intern t value = elim (trim value) [
  | [] ↦ err (invalid_symbol value)
  | c ∷ s ↦ ok (intern t (trim value))
]

-- `try_from_symbols`, from the table built so far.
unfoldable pub intern_all : SymbolTable → List Text → Result CoreError SymbolTable
intern_all t [] = ok t
intern_all t (symbol ∷ symbols) = try_intern t symbol >>= λ r. intern_all r.0 symbols

unfoldable pub try_from_symbols : List Text → Result CoreError SymbolTable
try_from_symbols symbols = intern_all empty symbols

unfoldable pub try_resolve : SymbolTable → SymbolId → Option Text
try_resolve t id = get_elem? t.by_id id

unfoldable pub resolve : SymbolTable → SymbolId → Text
resolve t id = elim (try_resolve t id) [ none ↦ codes "<unknown>" | some s ↦ s ]
