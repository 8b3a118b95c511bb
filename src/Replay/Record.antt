-- ===== src/Replay/Record.antt =====
-- A record that codec/src/lib.rs writes is what the readers of replay/src/lib.rs find next; a part of
-- it is not taken for a record.
use orderbook_replay_lab.Base.{
  ℕ, ◌+◌, ◌-◌, ◌^◌, ◌≤◌, ◌<◌, ◌≡◌, refl, sym, ap, ◌∙◌, ◌≢◌, inl, inr, true, false, [], ◌∷◌, ◌++◌,
  arith, ltb, ◌==◌, ==_iff, if◌then◌else◌, Bool-cases, length, take, drop, length-append, nat_eq,
  text_eq,
}
use orderbook_replay_lab.Base.Result.{ok, err}
use Prim.Native.String.{String}
use orderbook_replay_lab.Base.Slices.{take_past, drop_past, take_just, drop_just, length-take}
use orderbook_replay_lab.Core.Symbols.{SymbolTable}
use orderbook_replay_lab.Codec.Defs.{
  Bytes, CodecError, Crates, bin_record_magic, bin_record_version, bin_record_header_len,
  to_le_bytes, decode_event_bin_header, decode_event_bin_record, check_record,
  decode_event_bin_payload,
}
use orderbook_replay_lab.Codec.Frame.{record_of, le_bytes_round_trip, decode-record_of}
use orderbook_replay_lab.Replay.Port.{Files, ReplayError}
use orderbook_replay_lab.Replay.Next.{fail, finish, truncated, payload_after, next_in}

-- The first 13 bytes of a record.
unfoldable pub header_bytes : ℕ → ℕ → Bytes
header_bytes n sum = bin_record_magic ++ bin_record_version ∷ (to_le_bytes n ++ to_le_bytes sum)

length-header_bytes : (n sum : ℕ) → length (header_bytes n sum) ≡ bin_record_header_len
unfolding header_bytes to_le_bytes
length-header_bytes n sum = refl

pub header-record_bytes :
    (X : Crates) (payload : Bytes)
    → take bin_record_header_len (record_of X payload)
      ≡ header_bytes (length payload) (X.crc32 payload)
unfolding record_of header_bytes to_le_bytes
header-record_bytes X payload = refl

module _ (F : Files) (X : Crates) (n sum : ℕ) (body : Bytes) (symbols : SymbolTable) where
  -- Bytes that begin with a header.
  abbrev bytes : Bytes
  bytes = header_bytes n sum ++ body

  length-bytes : length bytes ≡ bin_record_header_len + length body
  unfolding header_bytes to_le_bytes
  length-bytes = omega arith

  prefix-bytes : take 4 bytes ≡ bin_record_magic
  unfolding header_bytes to_le_bytes
  prefix-bytes = refl

  header-bytes :
      n < 2 ^ 32
      → sum < 2 ^ 32
      → decode_event_bin_header {E = X.Error} (take bin_record_header_len bytes)
        ≡ ok (record { payload_len = n; checksum = sum })
  unfolding decode_event_bin_header to_le_bytes header_bytes
  header-bytes small_n small_sum =
      rw (le_bytes_round_trip n small_n, le_bytes_round_trip sum small_sum) refl

  pub next_in-header :
      n < 2 ^ 32
      → sum < 2 ^ 32
      → next_in F X bytes symbols
        ≡ payload_after F X bytes symbols (ok (record { payload_len = n; checksum = sum }))
  unfolding next_in
  next_in-header small_n small_sum =
      let some_bytes : (length bytes == 0) ≡ false = ground (arith, length-bytes) in
      let prefix : ltb (length bytes) 4 ≡ false = ground (arith, length-bytes) in
      let enough : ltb (length bytes) bin_record_header_len ≡ false =
        ground (arith, length-bytes) in
      rw (some_bytes, prefix, prefix-bytes, enough, header-bytes small_n small_sum) refl

  pub next_in-short_payload :
      n < 2 ^ 32
      → sum < 2 ^ 32
      → length body < n
      → next_in F X bytes symbols ≡ truncated F X "truncated binary payload"
  next_in-short_payload small_n small_sum few =
      let short : ltb (length bytes) (bin_record_header_len + n) ≡ true =
        ground (arith, length-bytes, few) in
      next_in-header small_n small_sum ∙ rw short refl

module _ (F : Files) (X : Crates) (payload more : Bytes) (symbols : SymbolTable) where
  abbrev front : Bytes
  front = header_bytes (length payload) (X.crc32 payload)

  record-front : record_of X payload ≡ front ++ payload
  unfolding record_of header_bytes to_le_bytes
  record-front = refl

  record-more : record_of X payload ++ more ≡ front ++ (payload ++ more)
  unfolding record_of header_bytes to_le_bytes
  record-more = refl

  -- A record that begins with the header of the payload, whatever the bytes behind it are.
  next_in-body :
      (body : Bytes)
      → length body ≡ length payload
      → length payload < 2 ^ 32
      → X.crc32 payload < 2 ^ 32
      → next_in F X (front ++ (body ++ more)) symbols
        ≡ finish F X (decode_event_bin_record X (front ++ body) symbols) more
  next_in-body body same small sum =
      let n = length payload in
      let bytes = front ++ (body ++ more) in
      let front_len = length-header_bytes n (X.crc32 payload) in
      let whole : ltb (length bytes) (bin_record_header_len + n) ≡ false = ground (
        arith,
        length-bytes F X n (X.crc32 payload) (body ++ more) symbols,
        length-append body more,
        same,
      ) in
      let this : take (bin_record_header_len + n) bytes ≡ front ++ body =
        take_past bin_record_header_len n front (body ++ more) front_len
        ∙ ap (λ xs. front ++ xs) (take_just n body more same) in
      let behind : drop (bin_record_header_len + n) bytes ≡ more =
        drop_past bin_record_header_len n front (body ++ more) front_len
        ∙ drop_just n body more same in
      next_in-header F X n (X.crc32 payload) (body ++ more) symbols small sum
      ∙ rw (whole, this, behind) refl

  -- A whole record: what its payload decodes to is next, and what follows it is left.
  pub next_in-record_of :
      length payload < 2 ^ 32
      → X.crc32 payload < 2 ^ 32
      → next_in F X (record_of X payload ++ more) symbols
        ≡ finish F X (decode_event_bin_payload X payload symbols) more
  next_in-record_of small sum =
      ap (λ bytes. next_in F X bytes symbols) record-more
      ∙ next_in-body payload refl small sum
      ∙ ap (λ bytes. finish F X (decode_event_bin_record X bytes symbols) more) (sym record-front)
      ∙ ap (λ d. finish F X d more) (decode-record_of X payload symbols small sum)

  decode-damaged :
      (body : Bytes)
      → length body ≡ length payload
      → length payload < 2 ^ 32
      → X.crc32 payload < 2 ^ 32
      → X.crc32 body ≢ X.crc32 payload
      → decode_event_bin_record X (front ++ body) symbols
        ≡ err (CodecError.binary_checksum_mismatch (X.crc32 payload) (X.crc32 body))
  unfolding decode_event_bin_record decode_event_bin_header check_record header_bytes to_le_bytes
  decode-damaged body same small sum differs =
      let len : length (front ++ body) - bin_record_header_len ≡ length payload =
        omega (arith, same) in
      let lens : (length payload == length payload) ≡ true =
        (==_iff (length payload) (length payload)).1 refl in
      let sums : (X.crc32 body == X.crc32 payload) ≡ false = ground (arith, differs) in
      rw
        (
          le_bytes_round_trip (length payload) small,
          le_bytes_round_trip (X.crc32 payload) sum,
          len,
          lens,
          sums,
        )
        refl

  -- A record whose payload is damaged: its checksum tells.
  pub next_in-damaged :
      (body : Bytes)
      → length body ≡ length payload
      → length payload < 2 ^ 32
      → X.crc32 payload < 2 ^ 32
      → X.crc32 body ≢ X.crc32 payload
      → next_in F X (front ++ (body ++ more)) symbols
        ≡ fail (
            ReplayError.decode
              (CodecError.binary_checksum_mismatch (X.crc32 payload) (X.crc32 body)))
  next_in-damaged body same small sum differs =
      next_in-body body same small sum ∙ rw (decode-damaged body same small sum differs) refl

-- The message for a record of which `n` bytes are there.
unfoldable pub cut_message : ℕ → String
cut_message n =
    if ltb n 4
    then "truncated binary record prefix"
    else if ltb n bin_record_header_len
    then "truncated binary record header"
    else "truncated binary payload"

module _ (F : Files) (X : Crates) (payload : Bytes) (symbols : SymbolTable) where
  length-record_of : length (record_of X payload) ≡ bin_record_header_len + length payload
  unfolding record_of to_le_bytes
  length-record_of = omega arith

  abbrev cut : ℕ → Bytes
  cut n = take n (record_of X payload)

  length-cut : (n : ℕ) → n < length (record_of X payload) → length (cut n) ≡ n
  length-cut n h = length-take n (record_of X payload) (omega arith)

  cut_in_prefix :
      (n : ℕ)
      → 0 < n
      → n < 4
      → next_in F X (cut n) symbols ≡ truncated F X "truncated binary record prefix"
  unfolding next_in
  cut_in_prefix n some_bytes h =
      let len = length-cut n (omega (arith, length-record_of)) in
      let not_end : (length (cut n) == 0) ≡ false = ground (arith, len, some_bytes) in
      let short : ltb (length (cut n)) 4 ≡ true = ground (arith, len, h) in rw (not_end, short) refl

  cut_past_magic : (n : ℕ) → 4 ≤ n → take 4 (cut n) ≡ bin_record_magic
  unfolding record_of
  cut_past_magic n h =
      let split : n ≡ 4 + (n - 4) = omega arith in
      ap (λ k. take 4 (take k (record_of X payload))) split
      ∙ ap (take 4) (
          take_past 4 (n - 4) bin_record_magic
            (bin_record_version
              ∷ (to_le_bytes (length payload) ++ (to_le_bytes (X.crc32 payload) ++ payload)))
            refl)

  cut_in_header :
      (n : ℕ)
      → 4 ≤ n
      → n < bin_record_header_len
      → next_in F X (cut n) symbols ≡ truncated F X "truncated binary record header"
  unfolding next_in
  cut_in_header n h k =
      let len = length-cut n (omega (arith, length-record_of)) in
      let not_end : (length (cut n) == 0) ≡ false = ground (arith, len, h) in
      let prefix : ltb (length (cut n)) 4 ≡ false = ground (arith, len, h) in
      let short : ltb (length (cut n)) bin_record_header_len ≡ true = ground (arith, len, k) in
      rw (not_end, prefix, cut_past_magic n h, short) refl

  cut_in_payload :
      (n : ℕ)
      → bin_record_header_len ≤ n
      → n < length (record_of X payload)
      → length payload < 2 ^ 32
      → X.crc32 payload < 2 ^ 32
      → next_in F X (cut n) symbols ≡ truncated F X "truncated binary payload"
  cut_in_payload n h k small sum =
      let m = n - bin_record_header_len in
      let front = header_bytes (length payload) (X.crc32 payload) in
      let split : n ≡ bin_record_header_len + m = omega arith in
      let e : cut n ≡ front ++ take m payload =
        ap (λ i. take i (record_of X payload)) split
        ∙ ap (take (bin_record_header_len + m)) (record-front F X payload [] symbols)
        ∙ take_past bin_record_header_len m front payload
            (length-header_bytes (length payload) (X.crc32 payload)) in
      ap (λ bytes. next_in F X bytes symbols) e
      ∙ next_in-short_payload F X (length payload) (X.crc32 payload) (take m payload) symbols small
          sum
          (omega (arith, length-record_of, length-take m payload (omega (arith, length-record_of))))

  -- A part of a record is not taken for a record: the readers miss the rest of it.
  pub next_in-cut :
      (n : ℕ)
      → 0 < n
      → n < length (record_of X payload)
      → length payload < 2 ^ 32
      → X.crc32 payload < 2 ^ 32
      → next_in F X (cut n) symbols ≡ truncated F X (cut_message n)
  unfolding cut_message
  next_in-cut n some_bytes part small sum = elim (Bool-cases (ltb n 4)) [
    | inl prefix ↦ rw prefix (cut_in_prefix n some_bytes (ground (arith, prefix)))
    | inr past ↦ rw past (elim (Bool-cases (ltb n bin_record_header_len)) [
      | inl h ↦ rw h (cut_in_header n (ground (arith, past)) (ground (arith, h)))
      | inr h ↦ rw h (cut_in_payload n (ground (arith, h)) part small sum)
    ])
  ]
