-- ===== src/Replay/Buffered.antt =====
-- replay/src/lib.rs: `ReplayReader`, which reads a file through a buffer.
use orderbook_replay_lab.Base.{
  ℕ, zero, suc, ◌-◌, Option, none, some, List, [], ◌∷◌, ◌++◌, ◌==◌, if◌then◌else◌, length, nat_eq,
  Text, text_eq, list_beq,
}
use orderbook_replay_lab.Base.Result.{Result, ok, err, ◌>>=◌, map_err}
use orderbook_replay_lab.Core.Types.{MarketEvent}
use orderbook_replay_lab.Core.Symbols.{SymbolTable, empty, try_from_symbols}
use orderbook_replay_lab.Codec.Defs.{
  Bytes, CodecError, Crates, bin_record_magic, bin_record_header_len, BinRecordHeader,
  decode_event_bin_header, decode_event_bin_record, decode_event_bin_payload,
  decode_event_json_line,
}
use orderbook_replay_lab.Replay.Port.{Files, ReplayError, ReplayFormat, jsonl, bin, from_le_prefix}

-- What the loop that fills a buffer ends with: the whole buffer, the part before the end of the file,
-- or an error of the file.
pub data Filled (I : Type 0) : Type 0 where
  full : Bytes → Filled I
  short : Bytes → Filled I
  failed : I → Filled I

-- The scratch buffers `buffer` and `bin_buf` are overwritten before they are read, so they are local
-- values here.
pub record ReplayReader (F : Type 0) : Type 0 where
  pub reader : F
  pub format : ReplayFormat
  pub symbols : SymbolTable

module _ (F : Files) (X : Crates) where
  abbrev pub Reader : Type 0
  Reader = ReplayReader F.File

  abbrev pub Failure : Type 0
  Failure = ReplayError F.IoError X.Error

  -- What a call of `next_event` returns.
  abbrev pub Next : Type 0
  Next = Result Failure (Option MarketEvent)

  -- `while read < buf.len()` with the bytes that are still wanted: a round that reads something wants
  -- at least one byte less, so there are at most as many rounds as bytes.
  unfoldable pub fill : ℕ → ℕ → Bytes → F.File → Filled F.IoError × F.File
  fill zero wanted buf file = (full buf, file)
  fill (suc rounds) wanted buf file =
      if wanted == 0
      then (full buf, file)
      else (let (got, file') = F.read wanted file in
          elim got [
            | err e ↦ (failed e, file')
            | ok [] ↦ (short buf, file')
            | ok (b ∷ bs) ↦ fill rounds (wanted - length (b ∷ bs)) (buf ++ b ∷ bs) file'
          ])

  -- The reader with the file as it is after the calls.
  abbrev pub at : Reader → F.File → Reader
  at r file = record r { reader = file }

  -- A decoded event, with the symbols it interned.
  unfoldable pub deliver :
      Reader → Result (CodecError X.Error) (SymbolTable × MarketEvent) → Next × Reader
  deliver r (ok (symbols, event)) = (ok (some event), record r { symbols = symbols })
  deliver r (err e) = (err (ReplayError.decode e), r)

  unfoldable pub take_payload : Reader → Filled F.IoError × F.File → Next × Reader
  unfolding deliver
  take_payload r (full bin_buf, file) =
      deliver (at r file) (decode_event_bin_record X bin_buf r.symbols)
  take_payload r (short _, file) =
      (err (ReplayError.unexpected_eof "truncated binary payload"), at r file)
  take_payload r (failed e, file) = (err (ReplayError.io e), at r file)

  -- What follows the header's checks.
  unfoldable pub with_header :
      Reader → Bytes → F.File → Result (CodecError X.Error) BinRecordHeader → Next × Reader
  unfolding take_payload
  with_header r header_buf file (err e) = (err (ReplayError.decode e), at r file)
  with_header r header_buf file (ok header) =
      take_payload r (fill header.payload_len header.payload_len header_buf file)

  unfoldable pub take_header : Reader → Filled F.IoError × F.File → Next × Reader
  unfolding with_header
  take_header r (full header_buf, file) =
      with_header r header_buf file (decode_event_bin_header header_buf)
  take_header r (short _, file) =
      (err (ReplayError.unexpected_eof "truncated binary record header"), at r file)
  take_header r (failed e, file) = (err (ReplayError.io e), at r file)

  unfoldable pub take_legacy : Reader → Filled F.IoError × F.File → Next × Reader
  unfolding deliver
  take_legacy r (full bin_buf, file) =
      deliver (at r file) (decode_event_bin_payload X bin_buf r.symbols)
  take_legacy r (short _, file) =
      (err (ReplayError.unexpected_eof "truncated legacy binary payload"), at r file)
  take_legacy r (failed e, file) = (err (ReplayError.io e), at r file)

  -- The branch on the first four bytes.
  unfoldable pub take_prefix : Reader → Filled F.IoError × F.File → Next × Reader
  unfolding take_header take_legacy
  take_prefix r (full prefix, file) =
      if list_beq prefix bin_record_magic
      then take_header r (fill (bin_record_header_len - 4) (bin_record_header_len - 4) prefix file)
      else take_legacy r (fill (from_le_prefix prefix) (from_le_prefix prefix) [] file)
  take_prefix r (short [], file) = (ok none, at r file)
  take_prefix r (short (b ∷ bs), file) =
      (err (ReplayError.unexpected_eof "truncated binary record prefix"), at r file)
  take_prefix r (failed e, file) = (err (ReplayError.io e), at r file)

  unfoldable pub next_event_bin : Reader → Next × Reader
  unfolding take_prefix
  next_event_bin r = take_prefix r (fill 4 4 [] r.reader)

  unfoldable pub take_line : Reader → Result F.IoError Text × F.File → Next × Reader
  unfolding deliver
  take_line r (err e, file) = (err (ReplayError.io e), at r file)
  take_line r (ok [], file) = (ok none, at r file)
  take_line r (ok (c ∷ line), file) =
      deliver (at r file) (decode_event_json_line X (c ∷ line) r.symbols)

  unfoldable pub next_event_json : Reader → Next × Reader
  unfolding take_line
  next_event_json r = take_line r (F.read_line r.reader)

  unfoldable pub next_event : Reader → Next × Reader
  next_event r = elim r.format [ jsonl ↦ next_event_json r | bin ↦ next_event_bin r ]

  unfoldable pub open_with_format_and_symbols :
      F.Location → ReplayFormat → SymbolTable → Result Failure Reader
  open_with_format_and_symbols path format symbols =
      map_err ReplayError.io (F.open_file path) >>= λ file.
      ok (record { reader = file; format = format; symbols = symbols })

  unfoldable pub open_with_format_and_predeclared_symbols :
      F.Location → ReplayFormat → List Text → Result Failure Reader
  open_with_format_and_predeclared_symbols path format symbols =
      map_err ReplayError.core (try_from_symbols symbols) >>= λ table.
      open_with_format_and_symbols path format table

  unfoldable pub open_with_format : F.Location → ReplayFormat → Result Failure Reader
  open_with_format path format = open_with_format_and_symbols path format empty

  -- `open`
  unfoldable pub open_path : F.Location → Result Failure Reader
  open_path path = open_with_format path jsonl
