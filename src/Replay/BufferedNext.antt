-- ===== src/Replay/BufferedNext.antt =====
-- The buffered reader of replay/src/lib.rs does what the bytes that are left say, however few bytes
-- each read of the file gives.
use orderbook_replay_lab.Base.{
  ℕ, ◌+◌, ◌-◌, ◌≤◌, ◌≡◌, refl, sym, ap, subst, ◌∙◌, inl, inr, false, [], ◌∷◌, ◌++◌, arith, ltb,
  ◌==◌, if◌then◌else◌, Bool-cases, length, take, drop, length-append, nat_eq, text_eq, list_beq,
}
use orderbook_replay_lab.Base.Result.{Result, ok, err}
use orderbook_replay_lab.Core.Types.{MarketEvent}
use mathlib.Core.List.{append_assoc}
use orderbook_replay_lab.Base.Slices.{
  length-take, take_then_drop, take_past, drop_past, take_just, drop_just,
}
use orderbook_replay_lab.Core.Symbols.{SymbolTable}
use orderbook_replay_lab.Codec.Defs.{
  Bytes, CodecError, Crates, bin_record_magic, bin_record_header_len, BinRecordHeader,
  decode_event_bin_header, decode_event_bin_record, decode_event_bin_payload,
}
use orderbook_replay_lab.Replay.Port.{Files, bin, from_le_prefix}
use orderbook_replay_lab.Replay.Buffered.{
  Reader, Next, Failure, Filled, full, short, fill, at, deliver, take_payload, with_header,
  take_header, take_legacy, take_prefix, next_event_bin, next_event,
}
use orderbook_replay_lab.Replay.Fill.{Serves, fill-Fills, fill-short}
use orderbook_replay_lab.Replay.Next.{
  Outcome, stop, finish, truncated, payload_after, record_in, legacy_in, next_in, Does,
}

module _ (F : Files) (X : Crates) (rest : F.File → Bytes) (laws : Serves F rest) where
  abbrev ReadDoes : Next F X × Reader F X → Outcome (Failure F X) → Type 0
  ReadDoes p o = Does F X (λ r. rest r.reader) (λ r. r.symbols) p o

  deliver-Does :
      (r : Reader F X) (bytes : Bytes) (d : Result (CodecError X.Error) (SymbolTable × MarketEvent))
      → rest r.reader ≡ bytes
      → ReadDoes (deliver F X r d) (finish F X d bytes)
  unfolding deliver
  deliver-Does r bytes (ok (symbols, e)) h = (refl, h, refl)
  deliver-Does r bytes (err e) h = refl

  -- A step that waits for a buffer: what it does with a full one, and with one cut short.
  payload_full :
      (r : Reader F X) (p : Filled F.IoError × F.File) (buf bytes : Bytes)
      → p.0 ≡ full buf
      → rest p.1 ≡ bytes
      → ReadDoes (take_payload F X r p) (finish F X (decode_event_bin_record X buf r.symbols) bytes)
  unfolding take_payload
  payload_full r (result, f) buf bytes e h =
      rw e (deliver-Does (at F X r f) bytes (decode_event_bin_record X buf r.symbols) h)

  payload_short :
      (r : Reader F X) (p : Filled F.IoError × F.File) (buf : Bytes)
      → p.0 ≡ short buf
      → ReadDoes (take_payload F X r p) (truncated F X "truncated binary payload")
  unfolding take_payload
  payload_short r (result, f) buf e = rw e refl

  -- `n` bytes that are wanted behind the bytes that were read, where they are there or not.
  ltb_past :
      (k n : ℕ) (p xs : Bytes) → length p ≡ k → ltb (length (p ++ xs)) (k + n) ≡ ltb (length xs) n
  ltb_past k n p xs h = ground (arith, h, length-append p xs)

  with_header-Does :
      (r : Reader F X) (header_buf : Bytes) (f : F.File)
      (h : Result (CodecError X.Error) BinRecordHeader)
      → length header_buf ≡ bin_record_header_len
      → ReadDoes
          (with_header F X r header_buf f h)
          (payload_after F X (header_buf ++ rest f) r.symbols h)
  unfolding with_header
  with_header-Does r header_buf f (err e) size = refl
  with_header-Does r header_buf f (ok header) size =
      let n = header.payload_len in
      let p = fill F X n n header_buf f in
      elim (Bool-cases (ltb (length (rest f)) n)) [
        | inl few ↦
            rw (ltb_past bin_record_header_len n header_buf (rest f) size, few)
              (payload_short r p (header_buf ++ rest f)
                (fill-short F X rest laws n n header_buf f (omega arith) (ground (arith, few))))
        | inr enough ↦
            (let filled =
                fill-Fills F X rest laws n n header_buf f (omega arith) (ground (arith, enough)) in
              rw
                (
                  ltb_past bin_record_header_len n header_buf (rest f) size,
                  enough,
                  take_past bin_record_header_len n header_buf (rest f) size,
                  drop_past bin_record_header_len n header_buf (rest f) size,
                )
                (payload_full r p (header_buf ++ take n (rest f)) (drop n (rest f)) filled.0
                  filled.1))
      ]

  header_full :
      (r : Reader F X) (p : Filled F.IoError × F.File) (buf bytes : Bytes)
      → p.0 ≡ full buf
      → length buf ≡ bin_record_header_len
      → rest p.1 ≡ bytes
      → ReadDoes
          (take_header F X r p)
          (payload_after F X (buf ++ bytes) r.symbols (decode_event_bin_header buf))
  unfolding take_header
  header_full r (result, f) buf bytes e size h =
      rw (e, sym h) (with_header-Does r buf f (decode_event_bin_header buf) size)

  header_short :
      (r : Reader F X) (p : Filled F.IoError × F.File) (buf : Bytes)
      → p.0 ≡ short buf
      → ReadDoes (take_header F X r p) (truncated F X "truncated binary record header")
  unfolding take_header
  header_short r (result, f) buf e = rw e refl

  take_header-Does :
      (r : Reader F X) (prefix : Bytes) (f : F.File)
      → length prefix ≡ 4
      → ReadDoes
          (take_header F X r
            (fill F X (bin_record_header_len - 4) (bin_record_header_len - 4) prefix f))
          (record_in F X (prefix ++ rest f) r.symbols)
  take_header-Does r prefix f size =
      let p = fill F X 9 9 prefix f in
      elim (Bool-cases (ltb (length (rest f)) 9)) [
        | inl few ↦
            rw (ltb_past 4 9 prefix (rest f) size, few)
              (header_short r p (prefix ++ rest f)
                (fill-short F X rest laws 9 9 prefix f (omega arith) (ground (arith, few))))
        | inr enough ↦
            (let filled =
                fill-Fills F X rest laws 9 9 prefix f (omega arith) (ground (arith, enough)) in
              let header_buf = prefix ++ take 9 (rest f) in
              let whole : header_buf ++ drop 9 (rest f) ≡ prefix ++ rest f =
                append_assoc prefix (take 9 (rest f)) (drop 9 (rest f))
                ∙ ap (λ xs. prefix ++ xs) (take_then_drop 9 (rest f)) in
              let there : 9 ≤ length (rest f) = ground (arith, enough) in
              rw (ltb_past 4 9 prefix (rest f) size, enough, take_past 4 9 prefix (rest f) size)
                (subst
                  (λ bytes.
                    ReadDoes (take_header F X r p)
                      (payload_after F X bytes r.symbols (decode_event_bin_header header_buf)))
                  whole
                  (header_full r p header_buf (drop 9 (rest f)) filled.0
                    (omega (
                      arith,
                      length-append prefix (take 9 (rest f)),
                      size,
                      length-take 9 (rest f) there,
                    ))
                    filled.1)))
      ]

  legacy_full :
      (r : Reader F X) (p : Filled F.IoError × F.File) (buf bytes : Bytes)
      → p.0 ≡ full buf
      → rest p.1 ≡ bytes
      → ReadDoes (take_legacy F X r p) (finish F X (decode_event_bin_payload X buf r.symbols) bytes)
  unfolding take_legacy
  legacy_full r (result, f) buf bytes e h =
      rw e (deliver-Does (at F X r f) bytes (decode_event_bin_payload X buf r.symbols) h)

  legacy_short :
      (r : Reader F X) (p : Filled F.IoError × F.File) (buf : Bytes)
      → p.0 ≡ short buf
      → ReadDoes (take_legacy F X r p) (truncated F X "truncated legacy binary payload")
  unfolding take_legacy
  legacy_short r (result, f) buf e = rw e refl

  take_legacy-Does :
      (r : Reader F X) (prefix : Bytes) (f : F.File) (n : ℕ)
      → length prefix ≡ 4
      → from_le_prefix prefix ≡ n
      → ReadDoes
          (take_legacy F X r (fill F X n n [] f))
          (legacy_in F X (prefix ++ rest f) r.symbols)
  take_legacy-Does r prefix f n size e =
      let p = fill F X n n [] f in
      let same : take 4 (prefix ++ rest f) ≡ prefix = take_just 4 prefix (rest f) size in
      elim (Bool-cases (ltb (length (rest f)) n)) [
        | inl few ↦
            rw (same, e, ltb_past 4 n prefix (rest f) size, few)
              (legacy_short r p (rest f)
                (fill-short F X rest laws n n [] f (omega arith) (ground (arith, few))))
        | inr enough ↦
            (let filled =
                fill-Fills F X rest laws n n [] f (omega arith) (ground (arith, enough)) in
              rw
                (
                  same,
                  e,
                  ltb_past 4 n prefix (rest f) size,
                  enough,
                  drop_just 4 prefix (rest f) size,
                  drop_past 4 n prefix (rest f) size,
                )
                (legacy_full r p (take n (rest f)) (drop n (rest f)) filled.0 filled.1))
      ]

  prefix_full :
      (r : Reader F X) (p : Filled F.IoError × F.File) (prefix bytes : Bytes)
      → p.0 ≡ full prefix
      → length prefix ≡ 4
      → rest p.1 ≡ bytes
      → ReadDoes (take_prefix F X r p) (
          if list_beq prefix bin_record_magic
          then record_in F X (prefix ++ bytes) r.symbols
          else legacy_in F X (prefix ++ bytes) r.symbols)
  unfolding take_prefix
  prefix_full r (result, f) prefix bytes e size h =
      elim (Bool-cases (list_beq prefix bin_record_magic)) [
        | inl new ↦ rw (e, new, sym h) (take_header-Does r prefix f size)
        | inr old ↦
            rw (e, old, sym h) (take_legacy-Does r prefix f (from_le_prefix prefix) size refl)
      ]

  prefix_short :
      (r : Reader F X) (p : Filled F.IoError × F.File) (buf : Bytes)
      → p.0 ≡ short buf
      → ReadDoes
          (take_prefix F X r p)
          (if length buf == 0 then stop else truncated F X "truncated binary record prefix")
  unfolding take_prefix
  prefix_short r (result, f) [] e = rw e refl
  prefix_short r (result, f) (b ∷ bs) e =
      let some_bytes : (length (b ∷ bs) == 0) ≡ false = ground arith in rw (e, some_bytes) refl

  next_event_bin-Does :
      (r : Reader F X) → ReadDoes (next_event_bin F X r) (next_in F X (rest r.reader) r.symbols)
  unfolding next_event_bin next_in
  next_event_bin-Does r =
      let bytes = rest r.reader in
      let p = fill F X 4 4 [] r.reader in
      elim (Bool-cases (ltb (length bytes) 4)) [
        | inl few ↦ rw few (
            prefix_short r p bytes
              (fill-short F X rest laws 4 4 [] r.reader (omega arith) (ground (arith, few))))
        | inr enough ↦
            (let there : 4 ≤ length bytes = ground (arith, enough) in
              let more : (length bytes == 0) ≡ false = ground (arith, there) in
              let filled = fill-Fills F X rest laws 4 4 [] r.reader (omega arith) there in
              rw (more, enough)
                (subst
                  (λ xs. ReadDoes (take_prefix F X r p) (
                    if list_beq (take 4 bytes) bin_record_magic
                    then record_in F X xs r.symbols
                    else legacy_in F X xs r.symbols))
                  (take_then_drop 4 bytes)
                  (prefix_full r p (take 4 bytes) (drop 4 bytes) filled.0
                    (length-take 4 bytes there) filled.1)))
      ]

  pub next_event-bin : (r : Reader F X) → r.format ≡ bin → next_event F X r ≡ next_event_bin F X r
  unfolding next_event
  next_event-bin r binary = rw binary refl

  -- The buffered reader of a binary log.
  pub buffered-Does :
      (r : Reader F X)
      → r.format ≡ bin
      → ReadDoes (next_event F X r) (next_in F X (rest r.reader) r.symbols)
  buffered-Does r binary = rw (next_event-bin r binary) (next_event_bin-Does r)
