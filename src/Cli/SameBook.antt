-- ===== src/Cli/SameBook.antt =====
-- The loops of `replay` and `simulate` in cli/src/main.rs build the same book from the same log.
use orderbook_replay_lab.Base.{
  ℕ, zero, suc, ◌-◌, ◌≡◌, refl, ap, subst, ◌∙◌, inl, inr, Bool, true, false, Option, List, [], ◌∷◌,
  map, arith, leb, if◌then◌else◌, Bool-cases, Option-cases, saturating_add_u64, add_u64, nat_eq,
  text_eq,
}
use orderbook_replay_lab.Base.Result.{Result, ok, err}
use orderbook_replay_lab.Core.Types.{SymbolId, MarketEvent}
use orderbook_replay_lab.Api.{Strategy}
use orderbook_replay_lab.Book.Defs.{OrderBook, apply}
use orderbook_replay_lab.Risk.Defs.{RiskPolicy}
use orderbook_replay_lab.Venue.Port.{ExecutionVenue, ReadsBook}
use orderbook_replay_lab.Metrics.{Histogram}
use orderbook_replay_lab.Engine.Defs.{EngineOf, event_ts_ns, on_timer}
use orderbook_replay_lab.Engine.Book.{on_timer-book, on_market_event-book}
use orderbook_replay_lab.Cli.Simulate.{
  max_timer_ticks_per_event, ReplayCounts, at_limit, tally, replay_loop, catch_up, SimState,
  run_timers, simulate_event, simulate_loop,
}

-- What both loops tell: the book, the events read and the events applied.
abbrev pub Seen : Type 0
Seen = OrderBook × ℕ × ℕ

abbrev pub seen_of_replay : {E : Type 0} → Result E (OrderBook × ReplayCounts) → Result E Seen
seen_of_replay (ok (book, c)) = ok (book, c.total_events_read, c.events_applied)
seen_of_replay (err e) = err e

-- A result of the reader without the time that the handling took.
abbrev pub event_only : {E : Type 0} → Result E (MarketEvent × ℕ) → Result E MarketEvent
event_only (ok (event, elapsed_ns)) = ok event
event_only (err e) = err e

module _ (R : RiskPolicy) (S : Strategy) (V : ExecutionVenue) (H : Histogram)
    (reads : ReadsBook V) where
  abbrev pub seen_of_simulate : {E : Type 0} → Result E (SimState R S V H) → Result E Seen
  seen_of_simulate (ok s) = ok (s.engine.book, s.events_read, s.events_applied)
  seen_of_simulate (err e) = err e

  catch_up-book :
      (ticks interval ts : ℕ) (symbol : SymbolId) (last : ℕ) (e : EngineOf R S V H)
      → (catch_up R S V H ticks interval ts symbol last e).1.book ≡ e.book
  unfolding catch_up
  catch_up-book zero interval ts symbol last e = refl
  catch_up-book (suc ticks) interval ts symbol last e =
      let tick = saturating_add_u64 last interval in
      elim (Bool-cases (leb interval (ts - last))) [
        | inl again ↦ rw again (
            catch_up-book ticks interval ts symbol tick (on_timer R S V H tick symbol e)
            ∙ on_timer-book R S V H reads tick symbol e)
        | inr done ↦ rw done refl
      ]

  run_timers-same :
      (interval : ℕ) (symbol : SymbolId) (event : MarketEvent) (s : SimState R S V H)
      → let s' = run_timers R S V H interval symbol event s in
        (s'.engine.book ≡ s.engine.book)
        × (s'.events_read ≡ s.events_read)
        × (s'.events_applied ≡ s.events_applied)
  unfolding run_timers
  run_timers-same interval symbol event s = elim (Option-cases s.last_tick_ts_ns) [
    | inl first ↦ rw first (refl, refl, refl)
    | inr (last, known) ↦ rw known (
      catch_up-book max_timer_ticks_per_event interval (event_ts_ns event) symbol last s.engine,
      refl,
      refl,
    )
  ]

  pub simulate_event-same :
      (interval : ℕ) (symbol : SymbolId) (event : MarketEvent) (ns : ℕ) (s : SimState R S V H)
      → let s' = simulate_event R S V H interval symbol (event, ns) s in
        let step = apply s.engine.book event in
        (s'.engine.book ≡ step.0)
        × (s'.events_read ≡ add_u64 s.events_read 1)
        × (s'.events_applied ≡ (if step.1 then add_u64 s.events_applied 1 else s.events_applied))
  unfolding simulate_event
  simulate_event-same interval symbol event ns s =
      let timed = run_timers-same interval symbol event s in
      let s' = run_timers R S V H interval symbol event s in
      let handled = on_market_event-book R S V H reads ns event s'.engine in
      rw (handled.0, handled.1, timed.0, timed.1, timed.2) (refl, refl, refl)

  branch :
      {E : Type 0} (b b' : Bool) (x r : Result E (SimState R S V H))
      (y q : Result E (OrderBook × ReplayCounts))
      → b ≡ b'
      → seen_of_simulate x ≡ seen_of_replay y
      → seen_of_simulate r ≡ seen_of_replay q
      → seen_of_simulate (if b then x else r) ≡ seen_of_replay (if b' then y else q)
  branch true true x r y q same h k = h
  branch false false x r y q same h k = k
  branch true false x r y q same h k = absurd (ground (arith, same))
  branch false true x r y q same h k = absurd (ground (arith, same))

  -- `simulate` reads the events that `replay` reads and ends with the same book, the same number of
  -- events read and the same number applied, or stops at the same error, whatever the strategy, the
  -- risk policies, the venue's reports and the timers do. The venue only reads the shared book. Both
  -- start with the same book and the same counts.
  pub simulate-replay :
      {E : Type 0} (limit : Option ℕ) (interval : ℕ) (symbol : SymbolId)
      (events : List (Result E (MarketEvent × ℕ))) (s : SimState R S V H) (c : ReplayCounts)
      → s.events_read ≡ c.total_events_read
      → s.events_applied ≡ c.events_applied
      → seen_of_simulate (simulate_loop R S V H limit interval symbol events s)
        ≡ seen_of_replay (replay_loop limit (map event_only events) s.engine.book c)
  unfolding simulate_loop replay_loop
  simulate-replay limit interval symbol [] s c h k = rw (h, k) refl
  simulate-replay limit interval symbol (err e ∷ events) s c h k = refl
  simulate-replay limit interval symbol (ok (event, ns) ∷ events) s c h k =
      let s' = simulate_event R S V H interval symbol (event, ns) s in
      let same = simulate_event-same interval symbol event ns s in
      let applied = apply s.engine.book event in
      let c' = tally applied.1 c in
      let read : s'.events_read ≡ c'.total_events_read = same.1 ∙ ap (λ n. add_u64 n 1) h in
      let counted : s'.events_applied ≡ c'.events_applied =
        same.2 ∙ ap (λ n. if applied.1 then add_u64 n 1 else n) k in
      let rest = simulate-replay limit interval symbol events s' c' read counted in
      branch (at_limit limit s'.events_read) (at_limit limit c'.total_events_read) (ok s')
        (simulate_loop R S V H limit interval symbol events s') (ok (applied.0, c'))
        (replay_loop limit (map event_only events) applied.0 c') (ap (at_limit limit) read)
        (rw (read, counted, same.0) refl)
        (subst
          (λ b.
            seen_of_simulate (simulate_loop R S V H limit interval symbol events s')
            ≡ seen_of_replay (replay_loop limit (map event_only events) b c'))
          same.0 rest)
