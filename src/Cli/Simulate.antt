-- ===== src/Cli/Simulate.antt =====
-- cli/src/main.rs: the loops of `replay` and `simulate` over the events of a log. What the reader
-- returns is a list of results, one for each call; the output lines are not modelled.
use orderbook_replay_lab.Base.{
  ℕ, zero, suc, ◌-◌, Bool, false, Option, none, some, List, [], ◌∷◌, leb, if◌then◌else◌,
  saturating_add_u64, add_u64, nat_eq, text_eq,
}
use orderbook_replay_lab.Base.Result.{Result, ok, err}
use orderbook_replay_lab.Core.Types.{SymbolId, MarketEvent}
use orderbook_replay_lab.Api.{Strategy}
use orderbook_replay_lab.Book.Defs.{OrderBook}
use orderbook_replay_lab.Book
use orderbook_replay_lab.Engine.Defs.{EngineOf, event_ts_ns, on_timer, on_market_event}
use orderbook_replay_lab.Metrics.{Histogram}
use orderbook_replay_lab.Risk.Defs.{RiskPolicy}
use orderbook_replay_lab.Venue.Port.{ExecutionVenue}

abbrev pub max_timer_ticks_per_event : ℕ
max_timer_ticks_per_event = 1024

pub record ReplayCounts : Type 0 where
  pub total_events_read : ℕ
  pub events_applied : ℕ
  pub events_dropped : ℕ

-- `limit` reached?
abbrev pub at_limit : Option ℕ → ℕ → Bool
at_limit none n = false
at_limit (some limit) n = leb limit n

abbrev pub tally : Bool → ReplayCounts → ReplayCounts
tally applied c = record {
  total_events_read = add_u64 c.total_events_read 1;
  events_applied = if applied then add_u64 c.events_applied 1 else c.events_applied;
  events_dropped = if applied then c.events_dropped else add_u64 c.events_dropped 1;
}

-- The loop of `run_replay`.
unfoldable pub replay_loop :
    {E : Type 0}
    → Option ℕ
    → List (Result E MarketEvent)
    → OrderBook
    → ReplayCounts
    → Result E (OrderBook × ReplayCounts)
replay_loop limit [] book c = ok (book, c)
replay_loop limit (err e ∷ events) book c = err e
replay_loop limit (ok event ∷ events) book c =
    let (book', applied) = Book.Defs.apply book event in
    let c' = tally applied c in
    let rest = replay_loop limit events book' c' in
    if at_limit limit c'.total_events_read then ok (book', c') else rest

module _ (R : RiskPolicy) (S : Strategy) (V : ExecutionVenue) (H : Histogram) where
  -- The timer loop before an event: `ticks` counts down from `MAX_TIMER_TICKS_PER_EVENT`.
  unfoldable pub catch_up : ℕ → ℕ → ℕ → SymbolId → ℕ → EngineOf R S V H → ℕ × EngineOf R S V H
  catch_up zero timer_interval_ns event_ts symbol last_tick e = (last_tick, e)
  catch_up (suc ticks) timer_interval_ns event_ts symbol last_tick e =
      let tick = saturating_add_u64 last_tick timer_interval_ns in
      let rest =
        catch_up ticks timer_interval_ns event_ts symbol tick (on_timer R S V H tick symbol e) in
      if leb timer_interval_ns (event_ts - last_tick) then rest else (last_tick, e)

  pub record SimState : Type 0 where
    pub engine : EngineOf R S V H
    pub events_read : ℕ
    pub events_applied : ℕ
    pub last_tick_ts_ns : Option ℕ

  -- The timer part of the loop's body.
  unfoldable pub run_timers : ℕ → SymbolId → MarketEvent → SimState → SimState
  run_timers timer_interval_ns symbol event s = elim s.last_tick_ts_ns [
    | none ↦ record s { last_tick_ts_ns = some (event_ts_ns event) }
    | some last_tick ↦
        (let (last_tick', e) =
            catch_up max_timer_ticks_per_event timer_interval_ns (event_ts_ns event) symbol
              last_tick s.engine in
          record s { engine = e; last_tick_ts_ns = some last_tick' })
  ]

  -- The body of the loop of `run_simulate`, for an event with the time that its handling took.
  unfoldable pub simulate_event : ℕ → SymbolId → MarketEvent × ℕ → SimState → SimState
  simulate_event timer_interval_ns symbol (event, elapsed_ns) s =
      let s' = run_timers timer_interval_ns symbol event s in
      let (e, applied) = on_market_event R S V H elapsed_ns event s'.engine in
      record s' {
        engine = e;
        events_read = add_u64 s'.events_read 1;
        events_applied = if applied then add_u64 s'.events_applied 1 else s'.events_applied;
      }

  -- The loop of `run_simulate`.
  unfoldable pub simulate_loop :
      {E : Type 0}
      → Option ℕ
      → ℕ
      → SymbolId
      → List (Result E (MarketEvent × ℕ))
      → SimState
      → Result E SimState
  simulate_loop limit timer_interval_ns symbol [] s = ok s
  simulate_loop limit timer_interval_ns symbol (err e ∷ events) s = err e
  simulate_loop limit timer_interval_ns symbol (ok event ∷ events) s =
      let s' = simulate_event timer_interval_ns symbol event s in
      let rest = simulate_loop limit timer_interval_ns symbol events s' in
      if at_limit limit s'.events_read then ok s' else rest
