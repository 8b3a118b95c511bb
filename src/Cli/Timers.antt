-- ===== src/Cli/Timers.antt =====
-- cli/src/main.rs: the timer ticks of `run_simulate` before an event.
use orderbook_replay_lab.Base.{
  ℕ, zero, suc, ◌+◌, ◌-◌, ◌*◌, ◌≤◌, ◌<◌, ◌≡◌, refl, ◌⊎◌, inl, inr, some, arith, leb, Bool-cases,
  u64_mod, saturating_add_u64, nat_eq, text_eq,
}
use orderbook_replay_lab.Core.Types.{SymbolId, MarketEvent}
use orderbook_replay_lab.Api.{Strategy}
use orderbook_replay_lab.Risk.Defs.{RiskPolicy}
use orderbook_replay_lab.Venue.Port.{ExecutionVenue}
use orderbook_replay_lab.Metrics.{Histogram}
use orderbook_replay_lab.Engine.Defs.{EngineOf, event_ts_ns, on_timer}
use orderbook_replay_lab.Cli.Simulate.{max_timer_ticks_per_event, catch_up, SimState, run_timers}

mul_suc : (n k : ℕ) → suc n * k ≡ k + n * k
mul_suc n k = omega arith

tick_exact : (a b : ℕ) → a + b < u64_mod → saturating_add_u64 a b ≡ a + b
unfolding saturating_add_u64
tick_exact a b h = omega arith

module _ (R : RiskPolicy) (S : Strategy) (V : ExecutionVenue) (H : Histogram) where
  -- The engine after `n` ticks, one interval apart.
  unfoldable pub ticked : ℕ → ℕ → SymbolId → ℕ → EngineOf R S V H → EngineOf R S V H
  ticked zero interval symbol last e = e
  ticked (suc n) interval symbol last e =
      ticked n interval symbol (last + interval) (on_timer R S V H (last + interval) symbol e)

  -- What the timer loop did: `n` ticks, none of them after the event; then the event is less than an
  -- interval away, or the limit is met.
  abbrev pub CaughtUp :
      ℕ → ℕ → ℕ → SymbolId → ℕ → EngineOf R S V H → ℕ × EngineOf R S V H → ℕ → Type 0
  CaughtUp limit interval ts symbol last e (last', e') n =
      (n ≤ limit)
      × (last' ≡ last + n * interval)
      × (e' ≡ ticked n interval symbol last e)
      × ((n ≡ 0) ⊎ (last' ≤ ts))
      × ((n ≡ limit) ⊎ (ts - last' < interval))

  catch_up-CaughtUp :
      (limit interval ts : ℕ) (symbol : SymbolId) (last : ℕ) (e : EngineOf R S V H)
      → 0 < interval
      → ts < u64_mod
      → (n : ℕ) × CaughtUp limit interval ts symbol last e
          (catch_up R S V H limit interval ts symbol last e)
          n
  unfolding catch_up ticked
  catch_up-CaughtUp zero interval ts symbol last e h k =
      (0, (omega arith, omega arith, refl, inl refl, inl refl))
  catch_up-CaughtUp (suc limit) interval ts symbol last e h k =
      elim (Bool-cases (leb interval (ts - last))) [
        | inl again ↦
            (let due : interval ≤ ts - last = ground (arith, again) in
              let tick : saturating_add_u64 last interval ≡ last + interval =
                tick_exact last interval (omega (arith, due)) in
              let (n, (within, at, same, before, end)) =
                catch_up-CaughtUp limit interval ts symbol (last + interval)
                  (on_timer R S V H (last + interval) symbol e) h k in
              rw (again, tick)
                (
                  suc n,
                  (
                    omega (arith, within),
                    omega (arith, at, mul_suc n interval),
                    same,
                    inr (ground (arith, before, at, due)),
                    ground (arith, end),
                  ),
                ))
        | inr done ↦
            rw done (0, (omega arith, omega arith, refl, inl refl, inr (ground (arith, done))))
      ]

  -- Before an event, the timer ticks at whole intervals behind the last tick, in order and 1024
  -- times at most, and no tick is later than the event; then the event is less than an interval
  -- away, unless the limit of 1024 ticks is met. The interval is not zero, the last tick is known
  -- and the event's time is a 64-bit number.
  pub run_timers-CaughtUp :
      (interval : ℕ) (symbol : SymbolId) (event : MarketEvent) (last : ℕ) (s : SimState R S V H)
      → 0 < interval
      → event_ts_ns event < u64_mod
      → s.last_tick_ts_ns ≡ some last
      → let s' = run_timers R S V H interval symbol event s in
        (n : ℕ) × (last' : ℕ) × (s'.last_tick_ts_ns ≡ some last')
        × CaughtUp max_timer_ticks_per_event interval
            (event_ts_ns event)
            symbol
            last
            s.engine
            (last', s'.engine)
            n
  unfolding run_timers
  run_timers-CaughtUp interval symbol event last s h k known =
      let (n, caught) =
        catch_up-CaughtUp max_timer_ticks_per_event interval (event_ts_ns event) symbol last
          s.engine h k in
      let r =
        catch_up R S V H max_timer_ticks_per_event interval (event_ts_ns event) symbol last
          s.engine in
      rw (run_timers, known) (n, r.0, refl, caught)
