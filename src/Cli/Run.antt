-- ===== src/Cli/Run.antt =====
-- cli/src/main.rs: `run_simulate` over the reader of replay/src/lib.rs. The measurements of
-- throughput and the printed lines are not modelled.
use orderbook_replay_lab.Base.{
  ℕ, zero, suc, Option, none, some, [], ◌∷◌, if◌then◌else◌, ℤ, pos, nat_eq, Text, text_eq,
}
use orderbook_replay_lab.Base.Result.{Result, ok, err, ◌>>=◌}
use mathlib.Core.Option
use Prim.Native.Nat.{max}
use orderbook_replay_lab.Api.{Strategy}
use orderbook_replay_lab.Book
use orderbook_replay_lab.Oms
use orderbook_replay_lab.Portfolio
use orderbook_replay_lab.Risk.Defs.{policies}
use orderbook_replay_lab.Strategies
use orderbook_replay_lab.Strategies.Twap.{noop_strategy, twap_strategy}
use orderbook_replay_lab.Strategies.Mm.{mm_strategy}
use orderbook_replay_lab.Venue
use orderbook_replay_lab.Venue.Sim.{sim_venue}
use orderbook_replay_lab.Metrics.{Histogram}
use orderbook_replay_lab.Codec.Defs.{Crates}
use orderbook_replay_lab.Replay.Port.{Files}
use orderbook_replay_lab.Replay.Buffered.{Failure, Reader, open_with_format_and_predeclared_symbols}
use orderbook_replay_lab.Replay.Buffered
use orderbook_replay_lab.Engine.Defs.{with_shared_book}
use orderbook_replay_lab.Cli.Counting.{default_counters, counting, counting_venue}
use orderbook_replay_lab.Cli.Simulate.{at_limit, SimState, simulate_event}
use orderbook_replay_lab.Cli.Log.{LogFormat, replay_format}

pub data StrategyKind : Type 0 where
  noop twap mm : StrategyKind

pub record SimulateStrategyConfig : Type 0 where
  pub twap_target : ℤ
  pub twap_horizon : ℕ
  pub twap_slice : ℤ
  pub mm_half_spread : ℤ
  pub mm_qty : ℤ
  pub mm_skew_per_lot : ℤ

-- A strategy with its first state.
abbrev pub make_strategy : StrategyKind → SimulateStrategyConfig → (S : Strategy) × S.State
make_strategy StrategyKind.noop config = (noop_strategy, tt)
make_strategy StrategyKind.twap config =
    (twap_strategy, Strategies.Twap.new config.twap_target config.twap_horizon config.twap_slice)
make_strategy StrategyKind.mm config =
    (mm_strategy, Strategies.Mm.new config.mm_half_spread config.mm_qty config.mm_skew_per_lot)

-- What is printed at the end.
pub record SimulateSummary : Type 0 where
  pub events_read : ℕ
  pub events_applied : ℕ
  pub orders_sent : ℕ
  pub fills_count : ℕ
  pub final_position_lots : ℤ
  pub realized_pnl_ticks : ℤ
  pub fees_paid_ticks : ℤ

module _ (F : Files) (X : Crates) (H : Histogram) where
  -- The simulation's venue, with its counters.
  abbrev pub Sim : Strategy → Type 0
  Sim S = SimState policies S (counting_venue sim_venue) H

  module _ (S : Strategy) where
    -- The state before the loop.
    unfoldable pub sim_start : S.State → Sim S
    sim_start strategy = record {
      engine =
          with_shared_book policies S (counting_venue sim_venue) H (Book.Defs.new 0)
            Portfolio.Defs.new Oms.Defs.new [] strategy
            (counting (Venue.Sim.new (pos 0) (pos 0)) default_counters);
      events_read = 0;
      events_applied = 0;
      last_tick_ts_ns = none;
    }

    unfoldable pub simulate_summary : Sim S → SimulateSummary
    simulate_summary s = record {
      events_read = s.events_read;
      events_applied = s.events_applied;
      orders_sent = s.engine.venue.counters.orders_sent;
      fills_count = s.engine.venue.counters.fills_count;
      final_position_lots = Portfolio.Defs.position_lots s.engine.portfolio 0;
      realized_pnl_ticks = Portfolio.Defs.realized_pnl_ticks s.engine.portfolio 0;
      fees_paid_ticks = Portfolio.Defs.fees_paid_ticks s.engine.portfolio 0;
    }

    -- `while let Some(event) = reader.next_event()?`, in `calls` calls at most; `clock` tells how
    -- long the engine takes for the event behind that many.
    unfoldable pub simulate_reader :
        ℕ → (ℕ → ℕ) → Option ℕ → ℕ → Reader F X → Sim S → Option (Result (Failure F X) (Sim S))
    simulate_reader zero clock limit timer_interval_ns reader s = none
    simulate_reader (suc calls) clock limit timer_interval_ns reader s =
        let (next, reader') = Buffered.next_event F X reader in
        elim next [
          | err e ↦ some (err e)
          | ok none ↦ some (ok s)
          | ok (some event) ↦
              (let s' =
                  simulate_event policies S (counting_venue sim_venue) H timer_interval_ns 0
                    (event, clock s.events_read) s in
                let rest = simulate_reader calls clock limit timer_interval_ns reader' s' in
                if at_limit limit s'.events_read then some (ok s') else rest)
        ]

    unfoldable pub simulate_opened :
        ℕ
        → (ℕ → ℕ)
        → Option ℕ
        → ℕ
        → S.State
        → Result (Failure F X) (Reader F X)
        → Option (Result (Failure F X) SimulateSummary)
    simulate_opened calls clock limit timer_interval_ns strategy (err e) = some (err e)
    simulate_opened calls clock limit timer_interval_ns strategy (ok reader) =
        Option.map (λ r. r >>= λ s. ok (simulate_summary s))
          (simulate_reader calls clock limit (max timer_interval_ns 1) reader (sim_start strategy))

  unfoldable pub run_simulate :
      ℕ
      → (ℕ → ℕ)
      → F.Location
      → Text
      → StrategyKind
      → SimulateStrategyConfig
      → Option ℕ
      → ℕ
      → LogFormat
      → Option (Result (Failure F X) SimulateSummary)
  run_simulate calls clock input symbol strategy config limit timer_interval_ns format =
      let (S, state) = make_strategy strategy config in
      simulate_opened S calls clock limit timer_interval_ns state
        (open_with_format_and_predeclared_symbols F X input (replay_format format) (symbol ∷ []))
