-- ===== src/Replay/Logs.antt =====
-- Logs that codec/src/lib.rs has written, whole, cut and damaged, under both readers of
-- replay/src/lib.rs.
use orderbook_replay_lab.Base.{
  ℕ, zero, suc, ◌+◌, ◌-◌, ◌<◌, ◌≡◌, refl, sym, ap, subst, ◌∙◌, ◌≢◌, some, List, [], ◌∷◌, ◌++◌, map,
  arith, length, take, nat_eq, text_eq,
}
use orderbook_replay_lab.Base.Result.{ok, err}
use orderbook_replay_lab.Core.Types.{MarketEvent}
use mathlib.Core.Option
use mathlib.Core.List.{append-nil}
use orderbook_replay_lab.Core.Symbols.{SymbolTable}
use orderbook_replay_lab.Core.Interning.{IsValid}
use orderbook_replay_lab.Core.Tables.{IsTrimmed}
use orderbook_replay_lab.Codec.Defs.{
  Bytes, CodecError, Crates, bin_record_header_len, frame, encode_event_bin_record,
}
use orderbook_replay_lab.Codec.Events.{ReadsBack, record-encoded, frame-ok}
use orderbook_replay_lab.Replay.Port.{Files, ReplayError, bin}
use orderbook_replay_lab.Replay.Buffered
use orderbook_replay_lab.Replay.Buffered.{Failure, ReplayReader, Reader}
use orderbook_replay_lab.Replay.Fill.{Serves}
use orderbook_replay_lab.Replay.Mapped
use orderbook_replay_lab.Replay.Mapped.{MmapReplayReader}
use orderbook_replay_lab.Replay.Next.{fail, truncated, next_in}
use orderbook_replay_lab.Replay.Streams.{read_all, events_in}
use orderbook_replay_lab.Replay.Agree.{mapped-events, buffered-events}
use orderbook_replay_lab.Replay.Record.{
  header_bytes, header-record_bytes, next_in-cut, next_in-damaged, cut_message,
}
use orderbook_replay_lab.Replay.Written.{Results, records_of, events_in-records_of}

module _ (F : Files) (X : Crates) (rest : F.File → Bytes) (laws : Serves F rest) where
  abbrev mapped : Bytes → SymbolTable → MmapReplayReader
  mapped bytes t = record { mmap = bytes; pos = 0; symbols = t }

  abbrev buffered : F.File → SymbolTable → Reader F X
  buffered file t = record { reader = file; format = bin; symbols = t }

  -- Both readers, each at the start of the same bytes, see these results.
  abbrev pub BothSee : ℕ → F.File → SymbolTable → Results F X → Type 0
  BothSee calls file t results =
      (read_all (Mapped.next_event F X) calls (mapped (rest file) t) ≡ some results)
      × (read_all (Buffered.next_event F X) calls (buffered file t) ≡ some results)

  both :
      (calls : ℕ) (file : F.File) (t : SymbolTable) (results : Results F X)
      → events_in F X calls (rest file) t ≡ some results
      → BothSee calls file t results
  both calls file t results h = (
    mapped-events F X calls (mapped (rest file) t) (omega arith) ∙ h,
    buffered-events F X rest laws calls (buffered file t) refl ∙ h,
  )

  stop_seen : (calls : ℕ) (t : SymbolTable) → 0 < calls → events_in F X calls [] t ≡ some []
  unfolding events_in next_in
  stop_seen zero t h = absurd (omega arith)
  stop_seen (suc calls) t h = refl

  fail_seen :
      (calls : ℕ) (bytes : Bytes) (t : SymbolTable) (e : Failure F X)
      → 0 < calls
      → next_in F X bytes t ≡ fail e
      → events_in F X calls bytes t ≡ some (err e ∷ [])
  unfolding events_in
  fail_seen zero bytes t e h failed = absurd (omega arith)
  fail_seen (suc calls) bytes t e h failed = rw (events_in, failed) refl

  module _ (reads : ReadsBack X) (t : SymbolTable) (v : IsValid t) (trimmed : IsTrimmed t) where
    -- Behind the written records, the readers see what they see of the tail.
    see_tail :
        (events : List MarketEvent) (bytes tail : Bytes) (results : Results F X) (calls : ℕ)
        (file : F.File)
        → records_of X t events ≡ ok bytes
        → rest file ≡ bytes ++ tail
        → ((k : ℕ) → 0 < k → events_in F X k tail t ≡ some results)
        → length events < calls
        → BothSee calls file t (map ok events ++ results)
    see_tail events bytes tail results calls file written holds seen enough =
        let k = calls - length events in
        let split : calls ≡ length events + k = omega arith in
        both calls file t (map ok events ++ results) (
          ap (λ n. events_in F X n (rest file) t) split
          ∙ ap (λ bs. events_in F X (length events + k) bs t) holds
          ∙ events_in-records_of F X reads t v trimmed events bytes tail k written
          ∙ ap (Option.map (λ rs. map ok events ++ rs)) (seen k (omega arith)))

    -- What is written is read back: a log of the records of some events, one behind the other,
    -- gives exactly these events under both readers. The symbol table is valid and its texts are
    -- trimmed and not empty; the crates read back what they write; the file is read without errors
    -- of its own, and the reader is called more often than there are events.
    pub written_log-reads_back :
        (events : List MarketEvent) (bytes : Bytes) (calls : ℕ) (file : F.File)
        → records_of X t events ≡ ok bytes
        → rest file ≡ bytes
        → length events < calls
        → BothSee calls file t (map ok events)
    written_log-reads_back events bytes calls file written holds enough =
        subst (BothSee calls file t) (append-nil (map ok events)) (
          see_tail events bytes [] [] calls file written (holds ∙ sym (append-nil bytes))
            (λ k h. stop_seen k t h) enough)

    -- A log that is cut inside a record gives the events before it and then an error of the kind
    -- unexpected end, whose message tells the part of the record that is cut: its prefix of 4
    -- bytes, its header of 13 or its payload. Both readers do so, for a log of records of some
    -- events and the first `n` bytes of one more. The conditions are those of a whole log.
    pub cut_log-fails :
        (events : List MarketEvent) (e : MarketEvent) (bytes record_bytes : Bytes) (n calls : ℕ)
        (file : F.File)
        → records_of X t events ≡ ok bytes
        → encode_event_bin_record X e t ≡ ok record_bytes
        → 0 < n
        → n < length record_bytes
        → rest file ≡ bytes ++ take n record_bytes
        → length events < calls
        → BothSee calls file t
            (map ok events ++ err (ReplayError.unexpected_eof (cut_message n)) ∷ [])
    cut_log-fails events e bytes record_bytes n calls file written more some_bytes part holds
          enough =
        let (payload, whole, small, back) =
          record-encoded X e t record_bytes reads v trimmed more in
        let failed : next_in F X (take n record_bytes) t ≡ truncated F X (cut_message n) =
          ap (λ bs. next_in F X (take n bs) t) whole
          ∙ next_in-cut F X payload t n some_bytes (omega (arith, ap length whole)) small
              (reads.sum_fits payload) in
        see_tail events bytes (take n record_bytes) _ calls file written holds
          (λ k h. fail_seen k (take n record_bytes) t _ h failed) enough

    -- A log in which the payload of a record is damaged gives the events before it and then an
    -- error of the checksum, with the two sums; what follows the damaged record is not read. The
    -- damaged payload has the length of the one that was written and another checksum. The other
    -- conditions are those of a whole log.
    pub damaged_log-fails :
        (events : List MarketEvent) (bytes payload record_bytes damaged more : Bytes) (calls : ℕ)
        (file : F.File)
        → records_of X t events ≡ ok bytes
        → frame X payload ≡ ok record_bytes
        → length damaged ≡ length payload
        → X.crc32 damaged ≢ X.crc32 payload
        → rest file ≡ bytes ++ (take bin_record_header_len record_bytes ++ (damaged ++ more))
        → length events < calls
        → BothSee calls file t (
            map ok events
            ++ err (
                ReplayError.decode
                  (CodecError.binary_checksum_mismatch (X.crc32 payload) (X.crc32 damaged)))
              ∷ [])
    damaged_log-fails events bytes payload record_bytes damaged more calls file written framed same
          differs holds enough =
        let (small, whole) = frame-ok X payload record_bytes framed in
        let header : take bin_record_header_len record_bytes
            ≡ header_bytes (length payload) (X.crc32 payload) =
          ap (take bin_record_header_len) whole ∙ header-record_bytes X payload in
        see_tail events bytes (header_bytes (length payload) (X.crc32 payload) ++ (damaged ++ more))
          _ calls file written (holds ∙ ap (λ front. bytes ++ (front ++ (damaged ++ more))) header)
          (λ k h. fail_seen k _ t _ h (
            next_in-damaged F X payload more t damaged same small (reads.sum_fits payload) differs))
          enough
