-- ===== src/Replay/Agree.antt =====
-- The readers of replay/src/lib.rs agree on every binary log, and end.
use orderbook_replay_lab.Base.{
  ℕ, ◌+◌, ◌≤◌, ◌≡◌, sym, subst, inl, inr, [], ◌∷◌, arith, ltb, ◌==◌, Bool-cases, length, nat_eq,
  text_eq, list_beq,
}
use orderbook_replay_lab.Base.Result.{Result, ok, err}
use orderbook_replay_lab.Core.Types.{MarketEvent}
use orderbook_replay_lab.Base.Tests.{if_both}
use orderbook_replay_lab.Core.Symbols.{SymbolTable}
use orderbook_replay_lab.Codec.Defs.{
  Bytes, CodecError, Crates, bin_record_magic, bin_record_header_len, BinRecordHeader,
  decode_event_bin_header, decode_event_bin_record, decode_event_bin_payload,
}
use orderbook_replay_lab.Replay.Port.{Files, bin, from_le_prefix}
use orderbook_replay_lab.Replay.Buffered
use orderbook_replay_lab.Replay.Buffered.{
  ReplayReader, Reader, Filled, full, short, failed, fill, at, take_payload, take_header,
  take_legacy, take_prefix, next_event_bin, open_with_format_and_symbols,
  open_with_format_and_predeclared_symbols,
}
use orderbook_replay_lab.Replay.Fill.{Serves}
use orderbook_replay_lab.Replay.Mapped
use orderbook_replay_lab.Replay.Mapped.{
  MmapReplayReader, slice, left_in, next_record, next_legacy, open_with_symbols,
  open_with_predeclared_symbols,
}
use orderbook_replay_lab.Replay.MappedNext.{rest_of, mapped-Does}
use orderbook_replay_lab.Replay.BufferedNext.{next_event-bin, buffered-Does}
use orderbook_replay_lab.Replay.Streams.{read_all, events_in, read_all-events}

module _ (F : Files) (X : Crates) where
  abbrev Within : MmapReplayReader → Type 0
  Within m = m.pos ≤ length m.mmap

  deliver-Within :
      (m : MmapReplayReader) (d : Result (CodecError X.Error) (SymbolTable × MarketEvent))
      → Within m
      → Within (Mapped.deliver F X m d).1
  unfolding Mapped.deliver
  deliver-Within m (ok (symbols, e)) h = h
  deliver-Within m (err e) h = h

  with_header-Within :
      (m : MmapReplayReader) (d : Result (CodecError X.Error) BinRecordHeader)
      → Within m
      → Within (Mapped.with_header F X m d).1
  unfolding Mapped.with_header
  with_header-Within m (err e) h = h
  with_header-Within m (ok header) h =
      elim (Bool-cases (ltb (left_in m) (bin_record_header_len + header.payload_len))) [
        | inl few ↦ rw few h
        | inr enough ↦
            (let n = bin_record_header_len + header.payload_len in
              rw enough (
                deliver-Within (record m { pos = m.pos + n })
                  (decode_event_bin_record X (slice m.mmap m.pos (m.pos + n)) m.symbols)
                  (ground (arith, enough))))
      ]

  next_record-Within : (m : MmapReplayReader) → Within m → Within (next_record F X m).1
  unfolding next_record
  next_record-Within m h =
      if_both (λ (p : Buffered.Next F X × MmapReplayReader). Within p.1)
        (ltb (left_in m) bin_record_header_len) _ _ h
        (with_header-Within m
          (decode_event_bin_header (slice m.mmap m.pos (m.pos + bin_record_header_len))) h)

  next_legacy-Within :
      (m : MmapReplayReader) (prefix : Bytes) → Within m → Within (next_legacy F X m prefix).1
  unfolding next_legacy
  next_legacy-Within m prefix h =
      let n = 4 + from_le_prefix prefix in
      elim (Bool-cases (ltb (left_in m) n)) [
        | inl few ↦ rw few h
        | inr enough ↦ rw enough (
            deliver-Within (record m { pos = m.pos + n })
              (decode_event_bin_payload X (slice m.mmap (m.pos + 4) (m.pos + n)) m.symbols)
              (ground (arith, enough)))
      ]

  next_event-Within : (m : MmapReplayReader) → Within m → Within (Mapped.next_event F X m).1
  unfolding Mapped.next_event
  next_event-Within m h =
      let prefix = slice m.mmap m.pos (m.pos + 4) in
      if_both (λ (p : Buffered.Next F X × MmapReplayReader). Within p.1) (m.pos == length m.mmap) _
        _ h
        (if_both (λ (p : Buffered.Next F X × MmapReplayReader). Within p.1) (ltb (left_in m) 4) _ _
          h
          (if_both (λ (p : Buffered.Next F X × MmapReplayReader). Within p.1)
            (list_beq prefix bin_record_magic) _ _ (next_record-Within m h)
            (next_legacy-Within m prefix h)))

  -- The buffered reader keeps its format.
  abbrev IsBin : Reader F X → Type 0
  IsBin r = r.format ≡ bin

  deliver-IsBin :
      (r : Reader F X) (d : Result (CodecError X.Error) (SymbolTable × MarketEvent))
      → IsBin r
      → IsBin (Buffered.deliver F X r d).1
  unfolding Buffered.deliver
  deliver-IsBin r (ok (symbols, e)) h = h
  deliver-IsBin r (err e) h = h

  take_payload-IsBin :
      (r : Reader F X) (p : Filled F.IoError × F.File) → IsBin r → IsBin (take_payload F X r p).1
  unfolding take_payload
  take_payload-IsBin r (full buf, f) h = deliver-IsBin (at F X r f) _ h
  take_payload-IsBin r (short buf, f) h = h
  take_payload-IsBin r (failed e, f) h = h

  take_legacy-IsBin :
      (r : Reader F X) (p : Filled F.IoError × F.File) → IsBin r → IsBin (take_legacy F X r p).1
  unfolding take_legacy
  take_legacy-IsBin r (full buf, f) h = deliver-IsBin (at F X r f) _ h
  take_legacy-IsBin r (short buf, f) h = h
  take_legacy-IsBin r (failed e, f) h = h

  with_header-IsBin :
      (r : Reader F X) (buf : Bytes) (f : F.File) (d : Result (CodecError X.Error) BinRecordHeader)
      → IsBin r
      → IsBin (Buffered.with_header F X r buf f d).1
  unfolding Buffered.with_header
  with_header-IsBin r buf f (err e) h = h
  with_header-IsBin r buf f (ok header) h = take_payload-IsBin r _ h

  take_header-IsBin :
      (r : Reader F X) (p : Filled F.IoError × F.File) → IsBin r → IsBin (take_header F X r p).1
  unfolding take_header
  take_header-IsBin r (full buf, f) h = with_header-IsBin r buf f _ h
  take_header-IsBin r (short buf, f) h = h
  take_header-IsBin r (failed e, f) h = h

  take_prefix-IsBin :
      (r : Reader F X) (p : Filled F.IoError × F.File) → IsBin r → IsBin (take_prefix F X r p).1
  unfolding take_prefix
  take_prefix-IsBin r (full prefix, f) h =
      if_both (λ (q : Buffered.Next F X × Reader F X). IsBin q.1) (list_beq prefix bin_record_magic)
        _ _ (take_header-IsBin r _ h) (take_legacy-IsBin r _ h)
  take_prefix-IsBin r (short [], f) h = h
  take_prefix-IsBin r (short (b ∷ bs), f) h = h
  take_prefix-IsBin r (failed e, f) h = h

  next_event_bin-IsBin : (r : Reader F X) → IsBin r → IsBin (next_event_bin F X r).1
  unfolding next_event_bin
  next_event_bin-IsBin r h = take_prefix-IsBin r (fill F X 4 4 [] r.reader) h

  -- The mapped reader, at a position within the file.
  pub mapped-events :
      (calls : ℕ) (m : MmapReplayReader)
      → Within m
      → read_all (Mapped.next_event F X) calls m ≡ events_in F X calls (rest_of m) m.symbols
  mapped-events calls m h =
      read_all-events F X (Mapped.next_event F X) rest_of (λ m'. m'.symbols) Within
        next_event-Within (mapped-Does F X) calls m h

  module _ (rest : F.File → Bytes) (laws : Serves F rest) where
    next_event-IsBin : (r : Reader F X) → IsBin r → IsBin (Buffered.next_event F X r).1
    next_event-IsBin r h =
        subst (λ p. IsBin p.1) (sym (next_event-bin F X rest laws r h)) (next_event_bin-IsBin r h)

    -- The buffered reader of a binary log.
    pub buffered-events :
        (calls : ℕ) (r : Reader F X)
        → IsBin r
        → read_all (Buffered.next_event F X) calls r ≡ events_in F X calls (rest r.reader) r.symbols
    buffered-events calls r h =
        read_all-events F X (Buffered.next_event F X) (λ r'. rest r'.reader) (λ r'. r'.symbols)
          IsBin next_event-IsBin (buffered-Does F X rest laws) calls r h
