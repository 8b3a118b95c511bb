-- ===== src/Codec/Frame.antt =====
-- The binary record of codec/src/lib.rs around its payload.
use orderbook_replay_lab.Base.{
  ℕ, ◌-◌, ◌/◌, ◌%◌, ◌^◌, ◌<◌, ◌≡◌, refl, true, ◌∷◌, ◌++◌, arith, ltb, ==_iff, length, drop, nat_eq,
  text_eq,
}
use orderbook_replay_lab.Base.Result.{ok, ◌>>=◌}
use orderbook_replay_lab.Core.Symbols.{SymbolTable}
use orderbook_replay_lab.Codec.Defs.{
  Bytes, Crates, bin_record_magic, bin_record_version, bin_record_header_len, BinRecordHeader,
  to_le_bytes, from_le_bytes, decode_event_bin_header, frame, check_record,
  decode_event_bin_payload, decode_event_bin_record,
}

-- A number below 2 ^ 32 is read back from its four bytes.
pub le_bytes_round_trip :
    (n : ℕ)
    → n < 2 ^ 32
    → from_le_bytes (n % 256) (n / 256 % 256) (n / 65536 % 256) (n / 16777216 % 256) ≡ n
unfolding from_le_bytes
le_bytes_round_trip n h = omega arith

module _ (X : Crates) (payload : Bytes) where
  abbrev pub header : BinRecordHeader
  header = record { payload_len = length payload; checksum = X.crc32 payload }

  unfoldable pub record_of : Bytes
  record_of =
      bin_record_magic
      ++ bin_record_version
        ∷ (to_le_bytes (length payload) ++ (to_le_bytes (X.crc32 payload) ++ payload))

  pub header-record_of :
      length payload < 2 ^ 32
      → X.crc32 payload < 2 ^ 32
      → decode_event_bin_header {E = X.Error} record_of ≡ ok header
  unfolding decode_event_bin_header to_le_bytes record_of
  header-record_of small sum =
      rw (le_bytes_round_trip (length payload) small, le_bytes_round_trip (X.crc32 payload) sum)
        refl

  length-record_of : length record_of - bin_record_header_len ≡ length payload
  unfolding record_of to_le_bytes
  length-record_of = omega arith

  drop-record_of : drop bin_record_header_len record_of ≡ payload
  unfolding record_of to_le_bytes
  drop-record_of = refl

  pub frame-record_of : length payload < 2 ^ 32 → frame X payload ≡ ok record_of
  unfolding frame record_of
  frame-record_of small =
      let small_size : ltb (length payload) (2 ^ 32) ≡ true = ground (arith, small) in
      rw small_size refl

  module _ (symbols : SymbolTable) where
    check-record_of :
        check_record X header record_of symbols ≡ decode_event_bin_payload X payload symbols
    unfolding check_record
    check-record_of =
        rw
          (
            length-record_of,
            drop-record_of,
            (==_iff (length payload) (length payload)).1 refl,
            (==_iff (X.crc32 payload) (X.crc32 payload)).1 refl,
          )
          refl

    pub decode-record_of :
        length payload < 2 ^ 32
        → X.crc32 payload < 2 ^ 32
        → decode_event_bin_record X record_of symbols ≡ decode_event_bin_payload X payload symbols
    unfolding decode_event_bin_record
    decode-record_of small sum = rw (header-record_of small sum) check-record_of

    -- A record that is framed is read back: a payload of less than 2 ^ 32 bytes has a record, and the
    -- record decodes to what the payload does. The checksum is a 32-bit number, as that of the crate.
    pub decode-frame :
        length payload < 2 ^ 32
        → X.crc32 payload < 2 ^ 32
        → (frame X payload >>= λ bytes. decode_event_bin_record X bytes symbols)
          ≡ decode_event_bin_payload X payload symbols
    decode-frame small sum = rw (frame-record_of small) (decode-record_of small sum)
