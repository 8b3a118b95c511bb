-- ===== src/Tests/Records.antt =====
-- The theorems on codec/src/lib.rs and core/src/lib.rs at concrete bytes and texts.
use orderbook_replay_lab.Base.{ℕ, ◌≡◌, refl, some, [], ◌∷◌, arith, length, nat_eq, text_eq}
use orderbook_replay_lab.Base.Result.{ok, err, ◌>>=◌}
use orderbook_replay_lab.Core.Text.{trim, codes}
use orderbook_replay_lab.Core.Symbols.{SymbolTable, empty, len, intern, try_resolve}
use orderbook_replay_lab.Core.Interning.{IsValid, empty-IsValid, intern-resolves}
use orderbook_replay_lab.Codec.Defs.{
  Crates, WireEvent, encode_event_bin_record, decode_event_bin_record,
}
use orderbook_replay_lab.Core.Types.{MarketEvent}
use orderbook_replay_lab.Codec.Events.{decode-encode}
use orderbook_replay_lab.Core.Text.{trim_start, is_whitespace}
use orderbook_replay_lab.Core.Symbols.{intern_trimmed, try_from_symbols, intern_all, try_intern}
use orderbook_replay_lab.Core.Tables.{IsSound, try_from_symbols-IsSound}
use orderbook_replay_lab.Base.Assoc.{lookup}

intern-resolves_example :
    let (t', id) = intern empty (codes " BTC-USD") in
    IsValid t' × (try_resolve t' id ≡ some (trim (codes " BTC-USD")))
unfolding len empty
intern-resolves_example = intern-resolves empty (codes " BTC-USD") empty-IsValid (omega arith)

abbrev one_symbol : SymbolTable
one_symbol = record { by_text = (codes "BTC", 0) ∷ []; by_id = codes "BTC" ∷ [] }

-- Crates that write a delta without updates as its time alone, with the length as checksum.
abbrev crates : Crates
crates = record {
  Error = ℕ;
  to_json = λ e. err 0;
  from_json = λ s. err 0;
  serialize = λ e. ok (1 ∷ []);
  deserialize = λ bytes. ok (WireEvent.l2_delta (length bytes) (codes "BTC") []);
  crc32 = λ bytes. length bytes;
}

-- The table after one symbol.
abbrev pub table : SymbolTable
table = (intern empty (codes "BTC")).0

pub table-IsValid : IsValid table
unfolding len empty
table-IsValid = (intern-resolves empty (codes "BTC") empty-IsValid (omega arith)).0

pub table-resolves : try_resolve table 0 ≡ some (codes "BTC")
unfolding try_resolve intern intern_trimmed empty lookup trim trim_start is_whitespace
table-resolves = refl

pub trim-btc : trim (codes "BTC") ≡ codes "BTC"
unfolding trim trim_start is_whitespace
trim-btc = refl

-- Crates that know one event.
abbrev pub one_event : Crates
one_event = record {
  Error = ℕ;
  to_json = λ e. err 0;
  from_json = λ s. err 0;
  serialize = λ e. ok (1 ∷ []);
  deserialize = λ bytes. ok (WireEvent.l2_delta 5 (codes "BTC") []);
  crc32 = λ bytes. length bytes;
}

decode-encode_example :
    (encode_event_bin_record one_event (MarketEvent.l2_delta 5 0 []) table >>= λ bytes.
    decode_event_bin_record one_event bytes table)
    ≡ ok (table, MarketEvent.l2_delta 5 0 [])
decode-encode_example =
    decode-encode one_event (MarketEvent.l2_delta 5 0 []) table (codes "BTC") (1 ∷ []) table-IsValid
      table-resolves trim-btc (λ e. absurd (ground (arith, e))) refl refl (omega arith)
      (omega arith)

try_from_symbols-IsSound_example : IsSound table
unfolding try_from_symbols intern_all try_intern intern intern_trimmed empty lookup trim trim_start
    is_whitespace
try_from_symbols-IsSound_example =
    try_from_symbols-IsSound (codes " BTC " ∷ []) table refl (omega arith)
