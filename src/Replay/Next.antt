-- ===== src/Replay/Next.antt =====
-- What is next in the bytes of a binary log, for the two readers of replay/src/lib.rs: a description
-- without files, positions and rounds.
use orderbook_replay_lab.Base.{
  ◌+◌, ◌≡◌, none, some, ltb, ◌==◌, if◌then◌else◌, length, take, drop, nat_eq, text_eq, list_beq,
}
use orderbook_replay_lab.Base.Result.{Result, ok, err}
use orderbook_replay_lab.Core.Types.{MarketEvent}
use Prim.Native.String.{String}
use orderbook_replay_lab.Core.Symbols.{SymbolTable}
use orderbook_replay_lab.Codec.Defs.{
  Bytes, CodecError, Crates, bin_record_magic, bin_record_header_len, BinRecordHeader,
  decode_event_bin_header, decode_event_bin_record, decode_event_bin_payload,
}
use orderbook_replay_lab.Replay.Port.{Files, ReplayError, from_le_prefix}
use orderbook_replay_lab.Replay.Buffered.{Next, Failure}

-- The end of the log; an error; or an event, with the symbols afterwards and the bytes behind it.
pub data Outcome (E : Type 0) : Type 0 where
  stop : Outcome E
  fail : E → Outcome E
  event : SymbolTable → MarketEvent → Bytes → Outcome E

module _ (F : Files) (X : Crates) where
  abbrev pub finish :
      Result (CodecError X.Error) (SymbolTable × MarketEvent) → Bytes → Outcome (Failure F X)
  finish (ok (symbols, e)) rest = event symbols e rest
  finish (err e) rest = fail (ReplayError.decode e)

  abbrev pub truncated : String → Outcome (Failure F X)
  truncated message = fail (ReplayError.unexpected_eof message)

  abbrev pub payload_after :
      Bytes → SymbolTable → Result (CodecError X.Error) BinRecordHeader → Outcome (Failure F X)
  payload_after bytes symbols (err e) = fail (ReplayError.decode e)
  payload_after bytes symbols (ok header) =
      let n = bin_record_header_len + header.payload_len in
      if ltb (length bytes) n
      then truncated "truncated binary payload"
      else finish (decode_event_bin_record X (take n bytes) symbols) (drop n bytes)

  abbrev pub record_in : Bytes → SymbolTable → Outcome (Failure F X)
  record_in bytes symbols =
      if ltb (length bytes) bin_record_header_len
      then truncated "truncated binary record header"
      else payload_after bytes symbols (decode_event_bin_header (take bin_record_header_len bytes))

  abbrev pub legacy_in : Bytes → SymbolTable → Outcome (Failure F X)
  legacy_in bytes symbols =
      let n = from_le_prefix (take 4 bytes) in
      if ltb (length bytes) (4 + n)
      then truncated "truncated legacy binary payload"
      else finish (decode_event_bin_payload X (take n (drop 4 bytes)) symbols) (drop (4 + n) bytes)

  unfoldable pub next_in : Bytes → SymbolTable → Outcome (Failure F X)
  next_in bytes symbols =
      if length bytes == 0
      then stop
      else if ltb (length bytes) 4
      then truncated "truncated binary record prefix"
      else if list_beq (take 4 bytes) bin_record_magic
      then record_in bytes symbols
      else legacy_in bytes symbols

  -- A reader that returns `p` does what the outcome says: it returns the end, the error or the event;
  -- behind an event it stands at the bytes behind it, with the symbols afterwards.
  abbrev pub Does {ℓ} :
      {S : Type ℓ} → (S → Bytes) → (S → SymbolTable) → Next F X × S → Outcome (Failure F X) → Type 0
  Does rest symbols p stop = p.0 ≡ ok none
  Does rest symbols p (fail e) = p.0 ≡ err e
  Does rest symbols p (event t e bytes) =
      (p.0 ≡ ok (some e)) × (rest p.1 ≡ bytes) × (symbols p.1 ≡ t)
