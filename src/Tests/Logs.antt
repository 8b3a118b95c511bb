-- ===== src/Tests/Logs.antt =====
-- The theorems on replay/src/lib.rs at a concrete log, in a file that gives one byte at a time.
use orderbook_replay_lab.Base.{
  ℕ, zero, suc, ◌%◌, ◌^◌, ◌≤◌, ◌<◌, ◌≡◌, refl, sym, ap, subst, ◌≢◌, ◌⊎◌, inl, inr, Option, none,
  some, List, [], ◌∷◌, ◌++◌, map, arith, length, take, drop, nat_eq, Text, text_eq,
}
use orderbook_replay_lab.Base.Result.{Result, ok, err}
use orderbook_replay_lab.Core.Types.{MarketEvent}
use orderbook_replay_lab.Core.Symbols.{empty}
use orderbook_replay_lab.Core.Text.{codes, trim, trim_start, is_whitespace}
use orderbook_replay_lab.Core.Tables.{IsTrimmed}
use orderbook_replay_lab.Codec.Defs.{
  Bytes, WireEvent, Crates, CodecError, from_core, to_le_bytes, frame, encode_event_bin_record,
}
use orderbook_replay_lab.Codec.Events.{ReadsBack}
use orderbook_replay_lab.Base.Result.{ok_inj, err_not_ok}
use orderbook_replay_lab.Replay.Written.{records_of}
use orderbook_replay_lab.Replay.Logs.{
  BothSee, written_log-reads_back, cut_log-fails, damaged_log-fails,
}
use orderbook_replay_lab.Core.Symbols.{try_resolve, intern, intern_trimmed}
use orderbook_replay_lab.Replay.Port.{Files, ReplayError, bin}
use orderbook_replay_lab.Base.{none}
use orderbook_replay_lab.Core.Symbols.{try_from_symbols, intern_all, try_intern}
use orderbook_replay_lab.Replay.Record.{cut_message}
use orderbook_replay_lab.Base.Assoc.{lookup}
use orderbook_replay_lab.Replay.Buffered
use orderbook_replay_lab.Replay.Buffered.{ReplayReader, open_with_format_and_predeclared_symbols}
use orderbook_replay_lab.Replay.Fill.{Serves}
use orderbook_replay_lab.Replay.Mapped
use orderbook_replay_lab.Replay.Mapped.{MmapReplayReader, open_with_predeclared_symbols}
use orderbook_replay_lab.Replay.Streams.{read_all, read_log}
use orderbook_replay_lab.Replay.Ends.{Ends, mapped_reader-Ends, buffered_reader-Ends, readers_agree}
use orderbook_replay_lab.Tests.Records.{one_event, table, table-IsValid, trim-btc}

-- A record without header, and two bytes behind it.
abbrev log : Bytes
log = 1 ∷ 0 ∷ 0 ∷ 0 ∷ 9 ∷ 77 ∷ 78 ∷ []

abbrev pub read_one : ℕ → Bytes → Result ℕ Bytes × Bytes
read_one zero bytes = (ok [], bytes)
read_one (suc n) [] = (ok [], [])
read_one (suc n) (b ∷ bytes) = (ok (b ∷ []), bytes)

-- Every path has the log.
abbrev files : Files
files = record {
  IoError = ℕ;
  Location = ℕ;
  File = Bytes;
  open_file = λ path. ok log;
  read = read_one;
  read_line = λ file. (err 0, file);
  map_file = λ path. ok log;
}

abbrev pub served_one : ℕ → Bytes → ℕ
served_one zero bytes = 0
served_one (suc n) [] = 0
served_one (suc n) (b ∷ bytes) = 1

pub given_one : (n : ℕ) (f : Bytes) → (read_one n f).0 ≡ ok (take (served_one n f) f)
given_one zero f = refl
given_one (suc n) [] = refl
given_one (suc n) (b ∷ f) = refl

pub left_one : (n : ℕ) (f : Bytes) → (read_one n f).1 ≡ drop (served_one n f) f
left_one zero f = refl
left_one (suc n) [] = refl
left_one (suc n) (b ∷ f) = refl

pub asked_one : (n : ℕ) (f : Bytes) → served_one n f ≤ n
asked_one zero f = omega arith
asked_one (suc n) [] = omega arith
asked_one (suc n) (b ∷ f) = omega arith

pub there_one : (n : ℕ) (f : Bytes) → served_one n f ≤ length f
there_one zero f = omega arith
there_one (suc n) [] = omega arith
there_one (suc n) (b ∷ f) = omega arith

pub some_one : (n : ℕ) (f : Bytes) → (n ≡ 0) ⊎ (length f ≡ 0) ⊎ (0 < served_one n f)
some_one zero f = inl refl
some_one (suc n) [] = inr (inl refl)
some_one (suc n) (b ∷ f) = inr (inr (omega arith))

serves : Serves files (λ f. f)
serves = record {
  served = served_one;
  given = given_one;
  left = left_one;
  asked = asked_one;
  there = there_one;
  some_if_any = some_one;
}

abbrev mapped : MmapReplayReader
mapped = record { mmap = log; pos = 0; symbols = empty }

abbrev buffered : ReplayReader Bytes
buffered = record { reader = log; format = bin; symbols = empty }

mapped_reader-Ends_example :
    Ends files one_event (read_all (Mapped.next_event files one_event) 8 mapped)
mapped_reader-Ends_example = mapped_reader-Ends files one_event 8 mapped (omega arith) (omega arith)

buffered_reader-Ends_example :
    Ends files one_event (read_all (Buffered.next_event files one_event) 8 buffered)
buffered_reader-Ends_example =
    buffered_reader-Ends files one_event (λ f. f) serves 8 buffered refl (omega arith)

readers_agree_example :
    read_log
      (Buffered.next_event files one_event)
      8
      (open_with_format_and_predeclared_symbols files one_event 0 bin (codes "BTC" ∷ []))
    ≡ read_log
        (Mapped.next_event files one_event)
        8
        (open_with_predeclared_symbols files one_event 0 (codes "BTC" ∷ []))
readers_agree_example =
    readers_agree files one_event (λ f. f) serves 8 0 (codes "BTC" ∷ []) log log refl refl refl

-- Crates that write a delta without updates as its time and its symbol, and nothing else.
abbrev deltas : Crates
deltas = record {
  Error = ℕ;
  to_json = λ e. err 0;
  from_json = λ s. err 0;
  serialize = λ e. elim e [ WireEvent.l2_delta ts_ns symbol [] ↦ ok (ts_ns ∷ symbol) | _ ↦ err 0 ];
  deserialize =
      λ bytes. elim bytes [ [] ↦ err 0 | ts_ns ∷ symbol ↦ ok (WireEvent.l2_delta ts_ns symbol []) ];
  crc32 = λ bytes. elim bytes [ [] ↦ 0 | b ∷ bs ↦ b % 2 ^ 32 ];
}

deltas-same :
    (e : WireEvent) (payload : Bytes)
    → deltas.serialize e ≡ ok payload
    → deltas.deserialize payload ≡ ok e
deltas-same (WireEvent.l2_delta ts_ns symbol []) payload h =
    rw (sym (ok_inj (ts_ns ∷ symbol) payload h)) refl
deltas-same (WireEvent.l2_delta ts_ns symbol (u ∷ us)) payload h = err_not_ok 0 payload h
deltas-same (WireEvent.l2_snapshot ts_ns symbol bids asks) payload h = err_not_ok 0 payload h

deltas-fits : (bytes : Bytes) → deltas.crc32 bytes < 2 ^ 32
deltas-fits [] = omega arith
deltas-fits (b ∷ bs) = omega arith

deltas-ReadsBack : ReadsBack deltas
deltas-ReadsBack = record { same_event = deltas-same; sum_fits = deltas-fits }

the_text : Option Text → Text
the_text none = []
the_text (some text) = text

table-IsTrimmed : IsTrimmed table
unfolding try_resolve intern intern_trimmed empty lookup trim trim_start is_whitespace the_text
table-IsTrimmed zero text h =
    let same : codes "BTC" ≡ text = ap the_text h in
    subst (λ s. (trim s ≡ s) × (s ≢ [])) same (trim-btc, λ e. absurd (ground (arith, e)))
table-IsTrimmed (suc id) text h = absurd (ground (arith, h))

-- Two events and their records, and one event more.
abbrev two_events : List MarketEvent
two_events = MarketEvent.l2_delta 5 0 [] ∷ MarketEvent.l2_delta 6 0 [] ∷ []

abbrev record_at : ℕ → Bytes
record_at ts_ns =
    0x4c ∷ 0x4f ∷ 0x42 ∷ 0x32 ∷ 1 ∷ 4 ∷ 0 ∷ 0 ∷ 0 ∷ ts_ns ∷ 0 ∷ 0 ∷ 0 ∷ ts_ns ∷ codes "BTC"

abbrev two_records : Bytes
two_records = record_at 5 ++ record_at 6

two_records-written : records_of deltas table two_events ≡ ok two_records
unfolding records_of encode_event_bin_record from_core frame to_le_bytes try_resolve intern
    intern_trimmed empty lookup trim trim_start is_whitespace
two_records-written = refl

one_more : encode_event_bin_record deltas (MarketEvent.l2_delta 7 0 []) table ≡ ok (record_at 7)
unfolding encode_event_bin_record from_core frame to_le_bytes try_resolve intern intern_trimmed
    empty lookup trim trim_start is_whitespace
one_more = refl

written_log-reads_back_example :
    BothSee files deltas (λ f. f) serves 3 two_records table (map ok two_events)
written_log-reads_back_example =
    written_log-reads_back files deltas (λ f. f) serves deltas-ReadsBack table table-IsValid
      table-IsTrimmed two_events two_records 3 two_records two_records-written refl (omega arith)

cut_log-fails_example :
    BothSee files deltas
      (λ f. f)
      serves
      3
      (two_records ++ take 15 (record_at 7))
      table
      (map ok two_events ++ err (ReplayError.unexpected_eof (cut_message 15)) ∷ [])
cut_log-fails_example =
    cut_log-fails files deltas (λ f. f) serves deltas-ReadsBack table table-IsValid table-IsTrimmed
      two_events (MarketEvent.l2_delta 7 0 []) two_records (record_at 7) 15 3
      (two_records ++ take 15 (record_at 7)) two_records-written one_more (omega arith)
      (omega arith) refl (omega arith)

damaged_log-fails_example :
    BothSee files deltas
      (λ f. f)
      serves
      3
      (two_records ++ (take 13 (record_at 7) ++ (8 ∷ codes "BTC" ++ record_at 9)))
      table
      (map ok two_events ++ err (ReplayError.decode (CodecError.binary_checksum_mismatch 7 8)) ∷ [])
unfolding frame to_le_bytes
damaged_log-fails_example =
    damaged_log-fails files deltas (λ f. f) serves deltas-ReadsBack table table-IsValid
      table-IsTrimmed two_events two_records (7 ∷ codes "BTC") (record_at 7) (8 ∷ codes "BTC")
      (record_at 9) 3 (two_records ++ (take 13 (record_at 7) ++ (8 ∷ codes "BTC" ++ record_at 9)))
      two_records-written refl refl (λ e. absurd (omega (arith, e))) refl (omega arith)

-- The log of the two events, at every path.
abbrev written_files : Files
written_files = record {
  IoError = ℕ;
  Location = ℕ;
  File = Bytes;
  open_file = λ path. ok two_records;
  read = read_one;
  read_line = λ file. (err 0, file);
  map_file = λ path. ok two_records;
}

pub one_symbol_table : try_from_symbols (codes " BTC " ∷ []) ≡ ok table
unfolding try_from_symbols intern_all try_intern intern intern_trimmed empty lookup trim trim_start
    is_whitespace
one_symbol_table = refl
