-- ===== src/Tests/Generated.antt =====
-- The theorems on the generator of cli/src/main.rs, for random numbers at the low end of each range.
use orderbook_replay_lab.Base.{
  ℕ, ◌+◌, ◌≡◌, refl, sym, ap, subst, ◌∙◌, true, none, some, List, [], ◌++◌, arith, ltb, length,
  nat_eq, text_eq,
}
use orderbook_replay_lab.Base.Result.{Result, ok, err}
use orderbook_replay_lab.Core.Types.{MarketEvent}
use orderbook_replay_lab.Core.Text.{codes, trim, trim_start, is_whitespace}
use orderbook_replay_lab.Core.Symbols.{try_resolve}
use orderbook_replay_lab.Core.Tables.{try_from_symbols-first}
use orderbook_replay_lab.Codec.Defs.{Bytes}
use orderbook_replay_lab.Replay.Port.{Files}
use orderbook_replay_lab.Replay.Fill.{Serves}
use orderbook_replay_lab.Replay.Written.{records_of}
use orderbook_replay_lab.Cli.Log.{bin_log, ReplaySummary, run_replay}
use orderbook_replay_lab.Cli.Gen.Defs.{Rng, Writer, run_gen}
use orderbook_replay_lab.Cli.Gen.Draws.{Draws}
use orderbook_replay_lab.Cli.Gen.Output.{Serializes, Stores, GeneratedLog}
use orderbook_replay_lab.Cli.Gen.Log.{run_gen-GeneratedLog}
use orderbook_replay_lab.Cli.Gen.Replay.{run_gen-run_replay}
use mathlib.Core.Option
use orderbook_replay_lab.Cli.Run.{StrategyKind, SimulateStrategyConfig, run_simulate}
use orderbook_replay_lab.Cli.SameRun.{read_by_replay, read_by_simulate, run_simulate-run_replay}
use orderbook_replay_lab.Base.{pos}
use orderbook_replay_lab.Tests.Runs.{histogram}
use orderbook_replay_lab.Tests.Records.{table}
use orderbook_replay_lab.Tests.Wire.{wire, wire-ReadsBack, wire-Serializes}
use orderbook_replay_lab.Tests.Logs.{
  read_one, served_one, given_one, left_one, asked_one, there_one, some_one, one_symbol_table,
}

abbrev lowest : Rng
lowest = record {
  State = ℕ;
  seed_from_u64 = λ seed. seed;
  gen_range = λ low high rng. (low, rng + 1);
  gen_bool = λ tenths rng. (ltb rng tenths, rng + 1);
}

lowest-Draws : Draws lowest
lowest-Draws = record { at_least = λ low high rng h. omega arith; at_most = λ low high rng h. h }

abbrev writer : Writer
writer = record {
  IoError = ℕ;
  Location = ℕ;
  File = Bytes;
  create = λ path. ok [];
  write_all = λ bytes file. ok (file ++ bytes);
  write_line = λ line file. err 0;
  flush = λ file. ok file;
}

writer-Stores : Stores writer (λ file. file)
writer-Stores = record {
  created = λ path. [];
  creates = λ path. refl;
  empty = λ path. refl;
  extended = λ bytes file. file ++ bytes;
  extends = λ bytes file. refl;
  appended = λ bytes file. refl;
  flushed = λ file. file;
  flushes = λ file. refl;
  kept = λ file. refl;
}

trim_spaced : trim (codes " BTC ") ≡ codes "BTC"
unfolding trim trim_start is_whitespace
trim_spaced = refl

resolved : try_resolve table 0 ≡ some (codes "BTC")
resolved = try_from_symbols-first (codes " BTC ") table one_symbol_table ∙ ap some trim_spaced

run_gen-GeneratedLog_example :
    (events : List MarketEvent) × (file : Bytes) × (run_gen lowest wire writer 0
        (codes " BTC ")
        3
        42
        true
        bin_log
      ≡ ok file)
    × (records_of wire table events ≡ ok file)
    × (length events ≡ 4)
    × GeneratedLog true events
run_gen-GeneratedLog_example =
    run_gen-GeneratedLog wire table (codes "BTC") resolved wire-Serializes writer (λ file. file)
      writer-Stores lowest lowest-Draws 0 (codes " BTC ") 3 42 true one_symbol_table (omega arith)

-- The bytes of a path are the path.
abbrev paths : Files
paths = record {
  IoError = ℕ;
  Location = Bytes;
  File = Bytes;
  open_file = λ path. ok path;
  read = read_one;
  read_line = λ file. (err 0, file);
  map_file = λ path. ok path;
}

paths-Serves : Serves paths (λ f. f)
paths-Serves = record {
  served = served_one;
  given = given_one;
  left = left_one;
  asked = asked_one;
  there = there_one;
  some_if_any = some_one;
}

file_of : {E : Type 0} → Result E Bytes → Bytes
file_of (ok file) = file
file_of (err e) = []

abbrev generated : Bytes
generated = file_of (run_gen lowest wire writer 0 (codes " BTC ") 3 42 true bin_log)

run_gen-run_replay_example :
    (file : Bytes) × (summary : ReplaySummary) × (run_gen lowest wire writer 0
        (codes " BTC ")
        3
        42
        true
        bin_log
      ≡ ok file)
    × (run_replay paths wire 5 generated (codes " BTC ") none bin_log ≡ some (ok summary))
    × (summary.counts.total_events_read ≡ 4)
    × (summary.counts.events_applied ≡ 4)
    × (summary.counts.events_dropped ≡ 0)
unfolding file_of
run_gen-run_replay_example =
    run_gen-run_replay paths wire (λ f. f) paths-Serves wire-ReadsBack writer (λ file. file)
      writer-Stores lowest lowest-Draws 0 (codes " BTC ") 3 42 true table generated 5
      one_symbol_table (subst (Serializes wire) (sym trim_spaced) wire-Serializes) (omega arith)
      (omega arith) (λ file h. (generated, refl, ap file_of h))

abbrev config : SimulateStrategyConfig
config = record {
  twap_target = pos 10;
  twap_horizon = 60;
  twap_slice = pos 1;
  mm_half_spread = pos 1;
  mm_qty = pos 1;
  mm_skew_per_lot = pos 1;
}

run_simulate-run_replay_example :
    Option.map read_by_simulate (
      run_simulate paths wire histogram 5
        (λ n. n)
        generated
        (codes " BTC ")
        StrategyKind.mm
        config
        none
        1_000_000_000
        bin_log)
    ≡ Option.map read_by_replay (run_replay paths wire 5 generated (codes " BTC ") none bin_log)
run_simulate-run_replay_example =
    run_simulate-run_replay paths wire histogram 5 (λ n. n) generated (codes " BTC ")
      StrategyKind.mm config none 1_000_000_000 bin_log
