-- ===== src/Cli/Gen/Replay.antt =====
-- cli/src/main.rs: `run_replay` of the log that `run_gen` writes.
use orderbook_replay_lab.Base.{
  ℕ, ◌+◌, ◌≤◌, ◌<◌, ◌≡◌, refl, ◌∙◌, Bool, true, false, none, some, List, [], ◌∷◌, arith, ◌==◌,
  if◌then◌else◌, length, half_i64, nat_eq, Text, text_eq,
}
use orderbook_replay_lab.Base.Result.{ok}
use orderbook_replay_lab.Core.Types.{MarketEvent}
use orderbook_replay_lab.Core.Text.{trim}
use orderbook_replay_lab.Core.Symbols.{SymbolTable, try_from_symbols}
use orderbook_replay_lab.Core.Tables.{try_from_symbols-first}
use orderbook_replay_lab.Codec.Defs.{Bytes, Crates}
use orderbook_replay_lab.Codec.Events.{ReadsBack}
use orderbook_replay_lab.Replay.Port.{Files}
use orderbook_replay_lab.Replay.Fill.{Serves}
use orderbook_replay_lab.Cli.Log.{bin_log, ReplaySummary, run_replay}
use orderbook_replay_lab.Cli.Written.{events_for, run_replay-summary}
use orderbook_replay_lab.Cli.Gen.Defs.{Rng, Writer, run_gen}
use orderbook_replay_lab.Cli.Gen.Draws.{Draws}
use orderbook_replay_lab.Cli.Gen.Output.{Stores, Serializes, Generated, GeneratedLog}
use orderbook_replay_lab.Cli.Gen.Log.{run_gen-GeneratedLog}

events_for-Generated :
    (ts : ℕ) (events : List MarketEvent) → Generated ts events → events_for 0 events ≡ length events
unfolding events_for
events_for-Generated ts [] g = refl
events_for-Generated ts (MarketEvent.l2_delta ts_ns symbol [] ∷ events) g = absurd g
events_for-Generated ts (MarketEvent.l2_delta ts_ns symbol (u ∷ []) ∷ events)
      (time, own, price, qty, g) =
    let same : (symbol == 0) ≡ true = ground (arith, own) in
    rw same (omega (arith, events_for-Generated (ts + 1) events g))
events_for-Generated ts (MarketEvent.l2_delta ts_ns symbol (u ∷ v ∷ us) ∷ events) g = absurd g
events_for-Generated ts (MarketEvent.l2_snapshot ts_ns symbol bids asks ∷ events) g = absurd g

events_for-GeneratedLog :
    (snapshot_first : Bool) (events : List MarketEvent)
    → GeneratedLog snapshot_first events
    → events_for 0 events ≡ length events
unfolding events_for
events_for-GeneratedLog false events g = events_for-Generated 0 events g
events_for-GeneratedLog true [] g = absurd g
events_for-GeneratedLog true (MarketEvent.l2_delta ts_ns symbol us ∷ events) g = absurd g
events_for-GeneratedLog true (MarketEvent.l2_snapshot ts_ns symbol bids asks ∷ events)
      (time, own, b, a, g) =
    let same : (symbol == 0) ≡ true = ground (arith, own) in
    rw same (omega (arith, events_for-Generated 1 events g))

module _ (F : Files) (X : Crates) (rest : F.File → Bytes) (laws : Serves F rest)
    (reads : ReadsBack X) (W : Writer) (contents : W.File → Bytes) (stores : Stores W contents)
    (G : Rng) (draws : Draws G) where
  -- A binary log that `gen` writes is read whole by `replay` without a limit: for a symbol that is
  -- accepted, that is, not blank, `gen` does not fail, and `replay` of what it wrote, with the same
  -- symbol, reads and applies every event and drops none: as many as were asked for, and the
  -- snapshot if there is one. The numbers are drawn in their ranges; the file takes what it is given
  -- and is later read without errors of its own; the crates write every event of one update, or of
  -- five levels a side, whose numbers have 64 bits, in less than 2 ^ 32 bytes, and read back what
  -- they write; fewer than 2 ^ 63 - 100006 events are asked for, and the reader is called more often
  -- than there are events.
  pub run_gen-run_replay :
      (output : W.Location) (symbol : Text) (n seed : ℕ) (snapshot_first : Bool) (t : SymbolTable)
      (path : F.Location) (calls : ℕ)
      → try_from_symbols (symbol ∷ []) ≡ ok t
      → Serializes X (trim symbol)
      → n + 100_006 < half_i64
      → n + 1 < calls
      → ((file : W.File)
          → run_gen G X W output symbol n seed snapshot_first bin_log ≡ ok file
          → (f : F.File) × (F.open_file path ≡ ok f) × (rest f ≡ contents file))
      → let size = n + (if snapshot_first then 1 else 0) in
        (file : W.File) × (summary : ReplaySummary) × (run_gen G X W output symbol n seed
            snapshot_first bin_log
          ≡ ok file)
        × (run_replay F X calls path symbol none bin_log ≡ some (ok summary))
        × (summary.counts.total_events_read ≡ size)
        × (summary.counts.events_applied ≡ size)
        × (summary.counts.events_dropped ≡ 0)
  run_gen-run_replay output symbol n seed snapshot_first t path calls table serial room enough
        stored =
      let known = try_from_symbols-first symbol t table in
      let (events, file, made, written, size, generated) =
        run_gen-GeneratedLog X t (trim symbol) known serial W contents stores G draws output symbol
          n seed snapshot_first table room in
      let (f, opened, same) = stored file made in
      let one : (if snapshot_first then 1 else 0) ≤ 1 = ground arith in
      let all = events_for-GeneratedLog snapshot_first events generated in
      let (summary, done, read, applied, dropped, bid, ask) =
        run_replay-summary F X rest laws reads path symbol none t f events (contents file) calls
          opened table written same (omega (arith, size, one)) (omega (arith, size, one)) in
      (file, summary, made, done, read ∙ size, applied ∙ all ∙ size, omega (arith, all, dropped))
