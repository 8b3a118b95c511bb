-- ===== src/Replay/Mapped.antt =====
-- replay/src/lib.rs: `MmapReplayReader`, which reads a file that is mapped into memory.
use orderbook_replay_lab.Base.{
  ℕ, ◌+◌, ◌-◌, none, some, List, ltb, ◌==◌, if◌then◌else◌, length, take, drop, nat_eq, Text,
  text_eq, list_beq,
}
use orderbook_replay_lab.Base.Result.{Result, ok, err, ◌>>=◌, map_err}
use orderbook_replay_lab.Core.Types.{MarketEvent}
use orderbook_replay_lab.Core.Symbols.{SymbolTable, empty, try_from_symbols}
use orderbook_replay_lab.Codec.Defs.{
  Bytes, CodecError, Crates, bin_record_magic, bin_record_header_len, BinRecordHeader,
  decode_event_bin_header, decode_event_bin_record, decode_event_bin_payload,
}
use orderbook_replay_lab.Replay.Port.{Files, ReplayError, from_le_prefix}
use orderbook_replay_lab.Replay.Buffered.{Next, Failure}

pub record MmapReplayReader : Type 0 where
  pub mmap : Bytes
  pub pos : ℕ
  pub symbols : SymbolTable

-- `&mmap[from..to]`, for bounds that the code has checked.
abbrev pub slice : Bytes → ℕ → ℕ → Bytes
slice bytes from to = take (to - from) (drop from bytes)

-- `self.mmap.len().saturating_sub(self.pos)`
abbrev pub left_in : MmapReplayReader → ℕ
left_in m = length m.mmap - m.pos

module _ (F : Files) (X : Crates) where
  unfoldable pub deliver :
      MmapReplayReader
      → Result (CodecError X.Error) (SymbolTable × MarketEvent)
      → Next F X × MmapReplayReader
  deliver m (ok (symbols, event)) = (ok (some event), record m { symbols = symbols })
  deliver m (err e) = (err (ReplayError.decode e), m)

  -- What follows the header's checks.
  unfoldable pub with_header :
      MmapReplayReader → Result (CodecError X.Error) BinRecordHeader → Next F X × MmapReplayReader
  unfolding deliver
  with_header m (err e) = (err (ReplayError.decode e), m)
  with_header m (ok header) =
      let record_len = bin_record_header_len + header.payload_len in
      if ltb (left_in m) record_len
      then (err (ReplayError.unexpected_eof "truncated binary payload"), m)
      else deliver (record m { pos = m.pos + record_len })
          (decode_event_bin_record X (slice m.mmap m.pos (m.pos + record_len)) m.symbols)

  -- A record with a header.
  unfoldable pub next_record : MmapReplayReader → Next F X × MmapReplayReader
  unfolding with_header
  next_record m =
      if ltb (left_in m) bin_record_header_len
      then (err (ReplayError.unexpected_eof "truncated binary record header"), m)
      else with_header m
          (decode_event_bin_header (slice m.mmap m.pos (m.pos + bin_record_header_len)))

  -- A record with a length alone.
  unfoldable pub next_legacy : MmapReplayReader → Bytes → Next F X × MmapReplayReader
  unfolding deliver
  next_legacy m prefix =
      let record_len = 4 + from_le_prefix prefix in
      if ltb (left_in m) record_len
      then (err (ReplayError.unexpected_eof "truncated legacy binary payload"), m)
      else deliver (record m { pos = m.pos + record_len })
          (decode_event_bin_payload X (slice m.mmap (m.pos + 4) (m.pos + record_len)) m.symbols)

  unfoldable pub next_event : MmapReplayReader → Next F X × MmapReplayReader
  unfolding next_record next_legacy
  next_event m =
      if m.pos == length m.mmap
      then (ok none, m)
      else if ltb (left_in m) 4
      then (err (ReplayError.unexpected_eof "truncated binary record prefix"), m)
      else (let prefix = slice m.mmap m.pos (m.pos + 4) in
          if list_beq prefix bin_record_magic then next_record m else next_legacy m prefix)

  unfoldable pub open_with_symbols :
      F.Location → SymbolTable → Result (Failure F X) MmapReplayReader
  open_with_symbols path symbols = map_err ReplayError.io (F.open_file path) >>= λ file.
      map_err ReplayError.io (F.map_file path) >>= λ mmap.
      ok (record { mmap = mmap; pos = 0; symbols = symbols })

  unfoldable pub open_with_predeclared_symbols :
      F.Location → List Text → Result (Failure F X) MmapReplayReader
  open_with_predeclared_symbols path symbols =
      map_err ReplayError.core (try_from_symbols symbols) >>= λ table. open_with_symbols path table

  -- `open`
  unfoldable pub open_path : F.Location → Result (Failure F X) MmapReplayReader
  open_path path = open_with_symbols path empty
