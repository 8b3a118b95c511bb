-- ===== src/Codec/Defs.antt =====
-- codec/src/lib.rs: events on the wire. The crates serde_json, bincode and crc32fast are a parameter.
use orderbook_replay_lab.Base.{
  ℕ, ◌+◌, ◌-◌, ◌*◌, ◌/◌, ◌%◌, ◌^◌, not, List, [], ◌∷◌, ◌++◌, ltb, ◌==◌, if◌then◌else◌, length, drop,
  nat_eq, Text, text_eq, list_beq,
}
use orderbook_replay_lab.Base.Result.{Result, ok, err, ◌>>=◌, ok_or, map_err}
use orderbook_replay_lab.Core.Types.{CoreError, SymbolId, Price, Qty, LevelUpdate, MarketEvent}
use orderbook_replay_lab.Core.Symbols.{SymbolTable, try_intern, try_resolve}

abbrev pub Bytes : Type 0
Bytes = List ℕ

-- The errors that the code itself makes; `json` and `binary` carry an error of the crates.
pub data CodecError (E : Type 0) : Type 0 where
  empty_line : CodecError E
  json : E → CodecError E
  core : CoreError → CodecError E
  unknown_symbol_id : SymbolId → CodecError E
  binary_record_too_short : CodecError E
  binary_magic_mismatch : Bytes → CodecError E
  binary_unsupported_version : ℕ → CodecError E
  binary_length_mismatch : (expected actual : ℕ) → CodecError E
  binary_checksum_mismatch : (expected actual : ℕ) → CodecError E
  binary_length_overflow : ℕ → CodecError E
  binary : E → CodecError E

-- `JsonMarketEventOwned`, `JsonMarketEventRef`, `BinMarketEventOwned` and `BinMarketEventRef` have
-- these fields: an event with its symbol as a text.
pub data WireEvent : Type 0 where
  l2_delta : (ts_ns : ℕ) (symbol : Text) (updates : List LevelUpdate) → WireEvent
  l2_snapshot : (ts_ns : ℕ) (symbol : Text) (bids asks : List (Price × Qty)) → WireEvent

-- What the code calls of the crates.
pub record Crates : Type 1 where
  pub Error : Type 0
  pub to_json : WireEvent → Result Error Text
  pub from_json : Text → Result Error WireEvent
  pub serialize : WireEvent → Result Error Bytes
  pub deserialize : Bytes → Result Error WireEvent
  pub crc32 : Bytes → ℕ

abbrev pub bin_record_magic : Bytes
bin_record_magic = 0x4c ∷ 0x4f ∷ 0x42 ∷ 0x32 ∷ []

abbrev pub bin_record_version : ℕ
bin_record_version = 1

abbrev pub bin_record_header_len : ℕ
bin_record_header_len = 13

pub record BinRecordHeader : Type 0 where
  pub payload_len : ℕ
  pub checksum : ℕ

-- `u32::to_le_bytes` and `u32::from_le_bytes`.
unfoldable pub to_le_bytes : ℕ → Bytes
to_le_bytes n = (n % 256) ∷ (n / 256 % 256) ∷ (n / 65536 % 256) ∷ (n / 16777216 % 256) ∷ []

unfoldable pub from_le_bytes : ℕ → ℕ → ℕ → ℕ → ℕ
from_le_bytes a b c d = a + 256 * b + 65536 * c + 16777216 * d

unfoldable pub decode_event_bin_header :
    {E : Type 0} → Bytes → Result (CodecError E) BinRecordHeader
decode_event_bin_header (m0 ∷ m1 ∷ m2 ∷ m3 ∷ version ∷ l0 ∷ l1 ∷ l2 ∷ l3 ∷ c0 ∷ c1 ∷ c2 ∷ c3 ∷ _) =
    let magic = m0 ∷ m1 ∷ m2 ∷ m3 ∷ [] in
    if not (list_beq magic bin_record_magic)
    then err (CodecError.binary_magic_mismatch magic)
    else if not (version == bin_record_version)
    then err (CodecError.binary_unsupported_version version)
    else ok
        (record { payload_len = from_le_bytes l0 l1 l2 l3; checksum = from_le_bytes c0 c1 c2 c3 })
decode_event_bin_header _ = err CodecError.binary_record_too_short

module _ (X : Crates) where
  abbrev pub Fallible : Type 0 → Type 0
  Fallible A = Result (CodecError X.Error) A

  -- `into_core` of both owned wire types.
  unfoldable pub into_core : WireEvent → SymbolTable → Fallible (SymbolTable × MarketEvent)
  into_core (WireEvent.l2_delta ts_ns symbol updates) symbols =
      map_err CodecError.core (try_intern symbols symbol) >>= λ r.
      ok (r.0, MarketEvent.l2_delta ts_ns r.1 updates)
  into_core (WireEvent.l2_snapshot ts_ns symbol bids asks) symbols =
      map_err CodecError.core (try_intern symbols symbol) >>= λ r.
      ok (r.0, MarketEvent.l2_snapshot ts_ns r.1 bids asks)

  -- `encode_event_json_ref` and `BinMarketEventRef::from_core`.
  unfoldable pub from_core : MarketEvent → SymbolTable → Fallible WireEvent
  from_core (MarketEvent.l2_delta ts_ns symbol updates) symbols =
      ok_or (try_resolve symbols symbol) (CodecError.unknown_symbol_id symbol) >>= λ text.
      ok (WireEvent.l2_delta ts_ns text updates)
  from_core (MarketEvent.l2_snapshot ts_ns symbol bids asks) symbols =
      ok_or (try_resolve symbols symbol) (CodecError.unknown_symbol_id symbol) >>= λ text.
      ok (WireEvent.l2_snapshot ts_ns text bids asks)

  unfoldable pub encode_event_json_line : MarketEvent → SymbolTable → Fallible Text
  encode_event_json_line event symbols =
      from_core event symbols >>= λ wire. map_err CodecError.json (X.to_json wire)

  -- `strip_suffix` of one character.
  unfoldable pub strip_suffix : ℕ → Text → Text
  strip_suffix c [] = []
  strip_suffix c (x ∷ []) = if x == c then [] else x ∷ []
  strip_suffix c (x ∷ y ∷ s) = x ∷ strip_suffix c (y ∷ s)

  unfoldable pub decode_event_json_line : Text → SymbolTable → Fallible (SymbolTable × MarketEvent)
  decode_event_json_line line symbols = elim (strip_suffix 0xd (strip_suffix 0xa line)) [
    | [] ↦ err CodecError.empty_line
    | c ∷ s ↦ map_err CodecError.json (X.from_json (c ∷ s)) >>= λ wire. into_core wire symbols
  ]

  -- The record around a payload.
  unfoldable pub frame : Bytes → Fallible Bytes
  frame payload =
      let len = length payload in
      if ltb len (2 ^ 32)
      then ok (
          bin_record_magic
          ++ bin_record_version ∷ (to_le_bytes len ++ (to_le_bytes (X.crc32 payload) ++ payload)))
      else err (CodecError.binary_length_overflow len)

  unfoldable pub encode_event_bin_record : MarketEvent → SymbolTable → Fallible Bytes
  encode_event_bin_record event symbols = from_core event symbols >>= λ wire.
      map_err CodecError.binary (X.serialize wire) >>= λ payload. frame payload

  unfoldable pub decode_event_bin_payload :
      Bytes → SymbolTable → Fallible (SymbolTable × MarketEvent)
  decode_event_bin_payload payload symbols =
      map_err CodecError.binary (X.deserialize payload) >>= λ event. into_core event symbols

  -- The checks of a record against its header.
  unfoldable pub check_record :
      BinRecordHeader → Bytes → SymbolTable → Fallible (SymbolTable × MarketEvent)
  check_record header record_bytes symbols =
      let actual = length record_bytes - bin_record_header_len in
      let payload = drop bin_record_header_len record_bytes in
      let actual_checksum = X.crc32 payload in
      if not (actual == header.payload_len)
      then err (CodecError.binary_length_mismatch header.payload_len actual)
      else if not (actual_checksum == header.checksum)
      then err (CodecError.binary_checksum_mismatch header.checksum actual_checksum)
      else decode_event_bin_payload payload symbols

  unfoldable pub decode_event_bin_record :
      Bytes → SymbolTable → Fallible (SymbolTable × MarketEvent)
  decode_event_bin_record record_bytes symbols =
      decode_event_bin_header record_bytes >>= λ header. check_record header record_bytes symbols
