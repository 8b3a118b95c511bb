-- ===== src/Cli/Orders.antt =====
-- cli/src/main.rs: the orders that `run_simulate` leaves in its engine.
use orderbook_replay_lab.Base.{
  ℕ, zero, suc, ◌+◌, ◌-◌, ◌*◌, ◌<◌, ◌≡◌, inl, inr, Option, List, [], ◌∷◌, arith, leb, Bool-cases,
  Option-cases, length, u64_mod, saturating_add_u64, nat_eq, text_eq,
}
use orderbook_replay_lab.Base.Result.{Result, ok, err}
use orderbook_replay_lab.Core.Types.{SymbolId, MarketEvent}
use orderbook_replay_lab.Api.{Strategy}
use orderbook_replay_lab.Base.Tests.{if_both}
use orderbook_replay_lab.Base.Assoc.{count}
use orderbook_replay_lab.Oms.Defs.{open_orders}
use orderbook_replay_lab.Oms.Invariant.{IsValid, is_open}
use orderbook_replay_lab.Risk.Defs.{RiskPolicy}
use orderbook_replay_lab.Venue.Port.{ExecutionVenue}
use orderbook_replay_lab.Metrics.{Histogram}
use orderbook_replay_lab.Engine.Defs.{EngineOf, max_intent_steps, event_ts_ns, on_timer}
use orderbook_replay_lab.Engine.Orders.{
  Takes, Takes-refl, Takes-add, Takes-mono, on_timer-Takes, on_market_event-Takes,
}
use orderbook_replay_lab.Cli.Simulate.{
  max_timer_ticks_per_event, at_limit, catch_up, SimState, run_timers, simulate_event,
  simulate_loop,
}

-- The order ids that one event takes at most, with the timer ticks before it.
abbrev pub ids_per_event : ℕ
ids_per_event = (max_timer_ticks_per_event + 1) * max_intent_steps

module _ (R : RiskPolicy) (S : Strategy) (V : ExecutionVenue) (H : Histogram) where
  catch_up-Takes :
      (ticks interval ts : ℕ) (symbol : SymbolId) (last : ℕ) (e : EngineOf R S V H)
      → Takes
          (ticks * max_intent_steps)
          e.oms
          (catch_up R S V H ticks interval ts symbol last e).1.oms
  unfolding catch_up
  catch_up-Takes zero interval ts symbol last e = Takes-refl (0 * max_intent_steps) e.oms
  catch_up-Takes (suc ticks) interval ts symbol last e =
      let tick = saturating_add_u64 last interval in
      elim (Bool-cases (leb interval (ts - last))) [
        | inl again ↦ rw again (
            Takes-mono (max_intent_steps + ticks * max_intent_steps) _ _ _ (omega arith) (
              Takes-add max_intent_steps (ticks * max_intent_steps) _ _ _
                (on_timer-Takes R S V H tick symbol e)
                (catch_up-Takes ticks interval ts symbol tick (on_timer R S V H tick symbol e))))
        | inr done ↦ rw done (Takes-refl (suc ticks * max_intent_steps) e.oms)
      ]

  run_timers-Takes :
      (interval : ℕ) (symbol : SymbolId) (event : MarketEvent) (s : SimState R S V H)
      → Takes
          (max_timer_ticks_per_event * max_intent_steps)
          s.engine.oms
          (run_timers R S V H interval symbol event s).engine.oms
  unfolding run_timers
  run_timers-Takes interval symbol event s = elim (Option-cases s.last_tick_ts_ns) [
    | inl first ↦
        rw (run_timers, first)
          (Takes-refl (max_timer_ticks_per_event * max_intent_steps) s.engine.oms)
    | inr (last, known) ↦
        rw (run_timers, known)
          (catch_up-Takes max_timer_ticks_per_event interval (event_ts_ns event) symbol last
            s.engine)
  ]

  simulate_event-Takes :
      (interval : ℕ) (symbol : SymbolId) (event : MarketEvent) (ns : ℕ) (s : SimState R S V H)
      → Takes ids_per_event s.engine.oms
          (simulate_event R S V H interval symbol (event, ns) s).engine.oms
  unfolding simulate_event
  simulate_event-Takes interval symbol event ns s =
      Takes-mono (max_timer_ticks_per_event * max_intent_steps + max_intent_steps) ids_per_event _ _
        (omega arith)
        (Takes-add (max_timer_ticks_per_event * max_intent_steps) max_intent_steps _ _ _
          (run_timers-Takes interval symbol event s)
          (on_market_event-Takes R S V H ns event
            (run_timers R S V H interval symbol event s).engine))

  -- The orders of a run that reads to the end or to the limit.
  abbrev pub OrdersCounted : {E : Type 0} → Result E (SimState R S V H) → Type 0
  OrdersCounted (ok s) =
      IsValid s.engine.oms × (open_orders s.engine.oms ≡ count is_open s.engine.oms.orders)
  OrdersCounted (err e) = Unit

  -- After any run of `simulate` that reads to the end or to the limit, the number of open orders
  -- that the engine's order management system tells is the number of its orders whose state is not
  -- terminal, and its orders are valid, whatever the strategy, the risk policies, the venue, the
  -- timers and the log do. The orders are valid at the start, as a new system's are, and there are
  -- 1025 * 1024 order ids for each event left below 2 ^ 64.
  pub simulate_loop-OrdersCounted :
      {E : Type 0} (limit : Option ℕ) (interval : ℕ) (symbol : SymbolId)
      (events : List (Result E (MarketEvent × ℕ))) (s : SimState R S V H)
      → s.engine.oms.next_id + length events * ids_per_event < u64_mod
      → IsValid s.engine.oms
      → OrdersCounted (simulate_loop R S V H limit interval symbol events s)
  unfolding simulate_loop
  simulate_loop-OrdersCounted limit interval symbol [] s room v = (v, v.counted)
  simulate_loop-OrdersCounted limit interval symbol (err e ∷ events) s room v = tt
  simulate_loop-OrdersCounted limit interval symbol (ok (event, ns) ∷ events) s room v =
      let next = simulate_event R S V H interval symbol (event, ns) s in
      let (v', grown) = simulate_event-Takes interval symbol event ns s (omega arith) v in
      if_both OrdersCounted (at_limit limit next.events_read) _ _ (v', v'.counted)
        (simulate_loop-OrdersCounted limit interval symbol events next (omega (arith, grown)) v')
