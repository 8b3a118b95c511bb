-- ===== src/Replay/Ends.antt =====
-- The readers of replay/src/lib.rs on whole logs: they agree, and they come to an end.
use orderbook_replay_lab.Base.{
  ℕ, zero, suc, ◌+◌, ◌-◌, ◌≤◌, ◌<◌, ◌≡◌, refl, sym, ap, ◌∙◌, inl, inr, false, Option, some, List,
  [], ◌∷◌, arith, ltb, ◌==◌, Bool-cases, length, take, drop, nat_eq, Text, text_eq, list_beq,
}
use orderbook_replay_lab.Base.Result.{Result, ok, err, ◌>>=◌, map_err}
use orderbook_replay_lab.Core.Types.{CoreError, MarketEvent}
use mathlib.Core.Option
use orderbook_replay_lab.Base.Tests.{if_both}
use orderbook_replay_lab.Base.Slices.{length-drop}
use orderbook_replay_lab.Core.Symbols.{SymbolTable, try_from_symbols}
use orderbook_replay_lab.Codec.Defs.{
  Bytes, CodecError, Crates, bin_record_magic, bin_record_header_len, BinRecordHeader,
  decode_event_bin_header, decode_event_bin_record, decode_event_bin_payload,
}
use orderbook_replay_lab.Replay.Port.{Files, ReplayError, bin, from_le_prefix}
use orderbook_replay_lab.Replay.Buffered
use orderbook_replay_lab.Replay.Buffered.{
  Reader, Failure, open_with_format_and_symbols, open_with_format_and_predeclared_symbols,
}
use orderbook_replay_lab.Replay.Fill.{Serves}
use orderbook_replay_lab.Replay.Mapped
use orderbook_replay_lab.Replay.Mapped.{
  MmapReplayReader, open_with_symbols, open_with_predeclared_symbols,
}
use orderbook_replay_lab.Replay.Next.{
  Outcome, stop, fail, event, finish, payload_after, legacy_in, next_in,
}
use orderbook_replay_lab.Replay.Streams.{read_all, read_log, events_in}
use orderbook_replay_lab.Replay.Agree.{mapped-events, buffered-events}

module _ (F : Files) (X : Crates) where
  -- An event leaves fewer bytes than there were.
  abbrev Shrinks : Outcome (Failure F X) → ℕ → Type 0
  Shrinks stop k = Unit
  Shrinks (fail e) k = Unit
  Shrinks (event t e rest) k = length rest < k

  finish-Shrinks :
      (d : Result (CodecError X.Error) (SymbolTable × MarketEvent)) (rest : Bytes) (k : ℕ)
      → length rest < k
      → Shrinks (finish F X d rest) k
  finish-Shrinks (ok (t, e)) rest k h = h
  finish-Shrinks (err e) rest k h = tt

  drop-lt :
      (n : ℕ) (bytes : Bytes)
      → 0 < n
      → ltb (length bytes) n ≡ false
      → length (drop n bytes) < length bytes
  drop-lt n bytes h enough = ground (arith, length-drop n bytes, enough)

  payload_after-Shrinks :
      (bytes : Bytes) (t : SymbolTable) (d : Result (CodecError X.Error) BinRecordHeader)
      → Shrinks (payload_after F X bytes t d) (length bytes)
  payload_after-Shrinks bytes t (err e) = tt
  payload_after-Shrinks bytes t (ok header) =
      let n = bin_record_header_len + header.payload_len in
      elim (Bool-cases (ltb (length bytes) n)) [
        | inl few ↦ rw few tt
        | inr enough ↦ rw enough (
            finish-Shrinks (decode_event_bin_record X (take n bytes) t) (drop n bytes)
              (length bytes) (drop-lt n bytes (omega arith) enough))
      ]

  legacy_in-Shrinks :
      (bytes : Bytes) (t : SymbolTable) → Shrinks (legacy_in F X bytes t) (length bytes)
  legacy_in-Shrinks bytes t =
      let n = from_le_prefix (take 4 bytes) in
      elim (Bool-cases (ltb (length bytes) (4 + n))) [
        | inl few ↦ rw few tt
        | inr enough ↦ rw enough (
            finish-Shrinks (decode_event_bin_payload X (take n (drop 4 bytes)) t)
              (drop (4 + n) bytes) (length bytes) (drop-lt (4 + n) bytes (omega arith) enough))
      ]

  next_in-Shrinks : (bytes : Bytes) (t : SymbolTable) → Shrinks (next_in F X bytes t) (length bytes)
  unfolding next_in
  next_in-Shrinks bytes t =
      let P = λ (o : Outcome (Failure F X)). Shrinks o (length bytes) in
      if_both P (length bytes == 0) _ _ tt (
        if_both P (ltb (length bytes) 4) _ _ tt (
          if_both P (list_beq (take 4 bytes) bin_record_magic) _ _
            (if_both P (ltb (length bytes) bin_record_header_len) _ _ tt (
              payload_after-Shrinks bytes t
                (decode_event_bin_header (take bin_record_header_len bytes))))
            (legacy_in-Shrinks bytes t)))

  -- The end of the loop: the results that it saw.
  abbrev pub Ends : Option (List (Result (Failure F X) MarketEvent)) → Type 0
  Ends seen = (results : List (Result (Failure F X) MarketEvent)) × (seen ≡ some results)

  events_in-Ends :
      (calls : ℕ) (bytes : Bytes) (t : SymbolTable)
      → length bytes < calls
      → Ends (events_in F X calls bytes t)
  unfolding events_in
  events_in-Ends zero bytes t h = absurd (omega arith)
  events_in-Ends (suc calls) bytes t h =
      after (next_in F X bytes t) (next_in-Shrinks bytes t)
        (λ rest t' k. events_in-Ends calls rest t' k)
    where
      after :
          (o : Outcome (Failure F X))
          → Shrinks o (length bytes)
          → ((rest : Bytes) (t' : SymbolTable)
              → length rest < calls
              → Ends (events_in F X calls rest t'))
          → Ends (elim o as (λ _. Option (List (Result (Failure F X) MarketEvent))) [
            | stop ↦ some []
            | fail e ↦ some (err e ∷ [])
            | event symbols' e bytes' ↦
                Option.map (λ es. ok e ∷ es) (events_in F X calls bytes' symbols')
          ])
      after stop s ih = ([], refl)
      after (fail e) s ih = (err e ∷ [], refl)
      after (event t' e rest) s ih =
          let (es, seen) = ih rest t' (omega arith) in (ok e ∷ es, rw seen refl)

  -- The mapped reader of any bytes, whole records or not, comes to an end: calling it once more than
  -- there are bytes is enough to see the end of the log or an error.
  pub mapped_reader-Ends :
      (calls : ℕ) (m : MmapReplayReader)
      → m.pos ≤ length m.mmap
      → length m.mmap - m.pos < calls
      → Ends (read_all (Mapped.next_event F X) calls m)
  mapped_reader-Ends calls m within enough =
      rw (mapped-events F X calls m within) (
        events_in-Ends calls (drop m.pos m.mmap) m.symbols
          (omega (arith, length-drop m.pos m.mmap)))

  module _ (rest : F.File → Bytes) (laws : Serves F rest) where
    -- The buffered reader of a binary log, whole or not, comes to an end, however few bytes each
    -- read of the file gives: calling it once more than there are bytes left is enough to see the
    -- end of the log or an error. The file is read without errors of its own.
    pub buffered_reader-Ends :
        (calls : ℕ) (r : Reader F X)
        → r.format ≡ bin
        → length (rest r.reader) < calls
        → Ends (read_all (Buffered.next_event F X) calls r)
    buffered_reader-Ends calls r binary enough =
        rw (buffered-events F X rest laws calls r binary)
          (events_in-Ends calls (rest r.reader) r.symbols enough)

    -- The buffered and the mapped reader see the same in one binary log: opened with the same
    -- symbols, they return the same events in the same order, stop alike, and fail alike at the
    -- first error, in any number of calls and however few bytes each read of the file gives. The
    -- file opens, reads without errors of its own, and holds the bytes that are mapped.
    pub readers_agree :
        (calls : ℕ) (path : F.Location) (symbols : List Text) (file : F.File) (mmap : Bytes)
        → F.open_file path ≡ ok file
        → F.map_file path ≡ ok mmap
        → rest file ≡ mmap
        → read_log
            (Buffered.next_event F X)
            calls
            (open_with_format_and_predeclared_symbols F X path bin symbols)
          ≡ read_log (Mapped.next_event F X) calls (open_with_predeclared_symbols F X path symbols)
    unfolding open_with_format_and_predeclared_symbols open_with_format_and_symbols
        open_with_predeclared_symbols open_with_symbols read_log
    readers_agree calls path symbols file mmap opened mapped same =
        from_table (try_from_symbols symbols)
      where
        from_table :
            (table : Result CoreError SymbolTable)
            → read_log (Buffered.next_event F X) calls (
                map_err ReplayError.core table >>= λ t. open_with_format_and_symbols F X path bin t)
              ≡ read_log
                  (Mapped.next_event F X)
                  calls
                  (map_err ReplayError.core table >>= λ t. open_with_symbols F X path t)
        from_table (err e) = refl
        from_table (ok t) =
            rw (opened, mapped)
              (buffered-events F X rest laws calls
                  (record { reader = file; format = bin; symbols = t }) refl
                ∙ ap (λ bytes. events_in F X calls bytes t) same
                ∙ sym (
                    mapped-events F X calls (record { mmap = mmap; pos = 0; symbols = t })
                      (omega arith)))
