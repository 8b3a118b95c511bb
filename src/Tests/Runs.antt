-- ===== src/Tests/Runs.antt =====
-- The theorems on engine/src/lib.rs and cli/src/main.rs at a concrete engine and log.
use orderbook_replay_lab.Base.{ℕ, ◌+◌, ◌≡◌, refl, none, some, List, [], ◌∷◌, pos, nat_eq, text_eq}
use orderbook_replay_lab.Base.Result.{Result, ok}
use orderbook_replay_lab.Core.Types.{Side, MarketEvent, l2_delta, l2_snapshot}
use orderbook_replay_lab.Book.Defs.{apply}
use orderbook_replay_lab.Book
use orderbook_replay_lab.Oms
use orderbook_replay_lab.Portfolio
use orderbook_replay_lab.Risk.Defs.{policies}
use orderbook_replay_lab.Strategies.Mm.{mm_strategy}
use orderbook_replay_lab.Strategies
use orderbook_replay_lab.Venue.Sim.{sim_venue, sim_venue-ReadsBook}
use orderbook_replay_lab.Venue
use orderbook_replay_lab.Metrics.{Histogram}
use orderbook_replay_lab.Engine.Defs.{EngineOf, on_market_event}
use orderbook_replay_lab.Engine.Book.{on_market_event-book}
use orderbook_replay_lab.Base.{arith}
use orderbook_replay_lab.Oms.Defs.{new}
use orderbook_replay_lab.Oms.Invariant.{new-IsValid}
use orderbook_replay_lab.Cli.Orders.{OrdersCounted, simulate_loop-OrdersCounted}
use orderbook_replay_lab.Cli.Timers.{CaughtUp, run_timers-CaughtUp}
use orderbook_replay_lab.Cli.Simulate.{
  max_timer_ticks_per_event, run_timers, SimState, ReplayCounts, simulate_loop,
}

-- A histogram that counts.
abbrev pub histogram : Histogram
histogram = record { H = ℕ; create = some 0; add = λ ns n. n + 1; len = λ n. n }

abbrev making : EngineOf policies mm_strategy sim_venue histogram
making = record {
  book = Book.Defs.new 0;
  portfolio = Portfolio.Defs.new;
  oms = Oms.Defs.new;
  risk = [];
  strategy = Strategies.Mm.new (pos 2) (pos 5) (pos 1);
  venue = Venue.Sim.new (pos 0) (pos 0);
  latency = some 0;
  intent_queue = [];
  intent_buffer = [];
  report_buffer = [];
}

abbrev snapshot : MarketEvent
snapshot = l2_snapshot 1 0 ((pos 100, pos 5) ∷ []) ((pos 104, pos 3) ∷ [])

abbrev delta : MarketEvent
delta = l2_delta 2_000_000_000 0 (record { side = Side.bid; price = pos 101; qty = pos 2 } ∷ [])

on_market_event-book_example :
    ((on_market_event policies mm_strategy sim_venue histogram 5 snapshot making).0.book
      ≡ (apply making.book snapshot).0)
    × ((on_market_event policies mm_strategy sim_venue histogram 5 snapshot making).1
        ≡ (apply making.book snapshot).1)
on_market_event-book_example =
    on_market_event-book policies mm_strategy sim_venue histogram sim_venue-ReadsBook 5 snapshot
      making

abbrev log : List (Result ℕ (MarketEvent × ℕ))
log = ok (snapshot, 5) ∷ ok (delta, 7) ∷ []

abbrev start : SimState policies mm_strategy sim_venue histogram
start = record { engine = making; events_read = 0; events_applied = 0; last_tick_ts_ns = none }

abbrev counts : ReplayCounts
counts = record { total_events_read = 0; events_applied = 0; events_dropped = 0 }

simulate_loop-OrdersCounted_example :
    OrdersCounted policies mm_strategy sim_venue histogram
      (simulate_loop policies mm_strategy sim_venue histogram (some 5) 1_000_000_000 0 log start)
unfolding new
simulate_loop-OrdersCounted_example =
    simulate_loop-OrdersCounted policies mm_strategy sim_venue histogram (some 5) 1_000_000_000 0
      log start (omega arith) new-IsValid

-- The engine after the snapshot's time, 1 ns.
abbrev ticking : SimState policies mm_strategy sim_venue histogram
ticking = record { engine = making; events_read = 1; events_applied = 1; last_tick_ts_ns = some 1 }

run_timers-CaughtUp_example :
    let s' = run_timers policies mm_strategy sim_venue histogram 1_000_000_000 0 delta ticking in
    (n : ℕ) × (last' : ℕ) × (s'.last_tick_ts_ns ≡ some last')
    × CaughtUp policies mm_strategy sim_venue histogram max_timer_ticks_per_event 1_000_000_000
        2_000_000_000 0 1 making
        (last', s'.engine)
        n
run_timers-CaughtUp_example =
    run_timers-CaughtUp policies mm_strategy sim_venue histogram 1_000_000_000 0 delta 1 ticking
      (omega arith) (omega arith) refl
