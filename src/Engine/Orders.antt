-- ===== src/Engine/Orders.antt =====
-- The orders of engine/src/lib.rs: the event loop keeps the order management system valid.
use orderbook_replay_lab.Base.{
  ℕ, zero, suc, ◌+◌, ◌≤◌, ◌<◌, inl, inr, Option, none, some, List, [], ◌∷◌, arith, Bool-cases,
  u64_mod, nat_eq, text_eq,
}
use orderbook_replay_lab.Core.Types.{SymbolId, MarketEvent}
use orderbook_replay_lab.Trading.{ExecutionReport, Intent}
use orderbook_replay_lab.Api.{Strategy}
use orderbook_replay_lab.Book.Defs.{apply}
use orderbook_replay_lab.Oms.Defs.{Oms, VenueRequest, apply_intent}
use orderbook_replay_lab.Oms
use orderbook_replay_lab.Oms.Invariant.{IsValid, apply_intent-IsValid, on_execution_report-IsValid}
use orderbook_replay_lab.Oms.Runs.{next_id-apply_intent, next_id-report}
use orderbook_replay_lab.Risk.Defs.{RiskAction, RiskPolicy}
use orderbook_replay_lab.Venue.Port.{ExecutionVenue}
use orderbook_replay_lab.Metrics.{Histogram}
use orderbook_replay_lab.Engine.Defs.{
  EngineOf, LoopOf, max_intent_steps, process_report, drain_reports, process_reports, route, act,
  process_intent, handle_intents, handle_intent_queue, take_buffers, give_buffers, update_venue,
  ask_strategy, react, on_market_event_deterministic, on_market_event, on_timer,
}

-- From one OMS to another: with room for `k` ids, a valid one stays valid and takes `k` ids at most.
abbrev pub Takes : ℕ → Oms → Oms → Type 0
Takes k o o' = o.next_id + k < u64_mod → IsValid o → IsValid o' × (o'.next_id ≤ o.next_id + k)

pub Takes-refl : (k : ℕ) (o : Oms) → Takes k o o
Takes-refl k o room v = (v, omega arith)

pub Takes-add : (j k : ℕ) (a b c : Oms) → Takes j a b → Takes k b c → Takes (j + k) a c
Takes-add j k a b c f g room v =
    let (v', grown) = f (omega arith) v in
    let (v'', grown') = g (omega (arith, grown)) v' in (v'', omega (arith, grown, grown'))

pub Takes-mono : (j k : ℕ) (a b : Oms) → j ≤ k → Takes j a b → Takes k a b
Takes-mono j k a b h f room v = let (v', grown) = f (omega arith) v in (v', omega (arith, grown))

intent-Takes : (o : Oms) (i : Intent) (ts : ℕ) → Takes 1 o (apply_intent o i ts).0
intent-Takes o i ts room v = (apply_intent-IsValid o i ts room v, next_id-apply_intent o i ts room)

report-Takes : (o : Oms) (r : ExecutionReport) → Takes 0 o (Oms.Defs.on_execution_report o r)
report-Takes o r room v =
    (on_execution_report-IsValid o r (omega arith) v, omega (arith, next_id-report o r))

module _ (R : RiskPolicy) (S : Strategy) (V : ExecutionVenue) (H : Histogram) where
  drain_reports-Takes :
      (reports : List ExecutionReport) (l : LoopOf R S V H)
      → Takes 0 l.engine.oms (drain_reports R S V H reports l).engine.oms
  unfolding drain_reports process_report
  drain_reports-Takes [] l = Takes-refl 0 _
  drain_reports-Takes (r ∷ rs) l =
      Takes-add 0 0 _ _ _ (report-Takes l.engine.oms r)
        (drain_reports-Takes rs (process_report R S V H r l))

  process_reports-Takes :
      (l : LoopOf R S V H) → Takes 0 l.engine.oms (process_reports R S V H l).engine.oms
  unfolding process_reports
  process_reports-Takes l = drain_reports-Takes l.reports (record l { reports = [] })

  route-Takes :
      (request : Option VenueRequest) (l : LoopOf R S V H)
      → Takes 0 l.engine.oms (route R S V H request l).engine.oms
  unfolding route
  route-Takes none l = Takes-refl 0 _
  route-Takes (some request) l =
      let (book, venue, reports) = V.submit l.engine.book request l.engine.venue [] in
      process_reports-Takes
        (record l { engine = record l.engine { book = book; venue = venue }; reports = reports })

  admit-Takes :
      (ts_ns : ℕ) (intent : Intent) (l : LoopOf R S V H)
      → let (oms, request) = apply_intent l.engine.oms intent ts_ns in
        Takes 1 l.engine.oms
          (route R S V H request (record l { engine = record l.engine { oms = oms } })).engine.oms
  admit-Takes ts_ns intent l =
      Takes-add 1 0 _ _ _ (intent-Takes l.engine.oms intent ts_ns) (route-Takes _ _)

  act-Takes :
      (ts_ns : ℕ) (decision : RiskAction) (l : LoopOf R S V H)
      → Takes 1 l.engine.oms (act R S V H ts_ns decision l).engine.oms
  unfolding act
  act-Takes ts_ns (RiskAction.allow intent) l = admit-Takes ts_ns intent l
  act-Takes ts_ns (RiskAction.transform intent) l = admit-Takes ts_ns intent l
  act-Takes ts_ns (RiskAction.reject reason) l = Takes-refl 1 _

  process_intent-Takes :
      (ts_ns : ℕ) (symbol : SymbolId) (intent : Intent) (l : LoopOf R S V H)
      → Takes 1 l.engine.oms (process_intent R S V H ts_ns symbol intent l).engine.oms
  unfolding process_intent
  process_intent-Takes ts_ns symbol intent l = act-Takes ts_ns _ _

  handle_intents-Takes :
      (steps ts_ns : ℕ) (symbol : SymbolId) (queue : List Intent) (l : LoopOf R S V H)
      → Takes steps l.engine.oms (handle_intents R S V H steps ts_ns symbol queue l).engine.oms
  unfolding handle_intents
  handle_intents-Takes steps ts_ns symbol [] l = Takes-refl steps _
  handle_intents-Takes zero ts_ns symbol (intent ∷ queue) l = Takes-refl 0 _
  handle_intents-Takes (suc steps) ts_ns symbol (intent ∷ queue) l =
      let l' = process_intent R S V H ts_ns symbol intent (record l { queue = queue }) in
      Takes-mono (1 + steps) (suc steps) _ _ (omega arith) (
        Takes-add 1 steps _ _ _
          (process_intent-Takes ts_ns symbol intent (record l { queue = queue }))
          (handle_intents-Takes steps ts_ns symbol l'.queue l'))

  handle_intent_queue-Takes :
      (ts_ns : ℕ) (symbol : SymbolId) (l : LoopOf R S V H)
      → Takes max_intent_steps l.engine.oms (handle_intent_queue R S V H ts_ns symbol l).engine.oms
  unfolding handle_intent_queue
  handle_intent_queue-Takes ts_ns symbol l =
      handle_intents-Takes max_intent_steps ts_ns symbol l.queue l

  update_venue-Takes :
      (l : LoopOf R S V H) → Takes 0 l.engine.oms (update_venue R S V H l).engine.oms
  unfolding update_venue
  update_venue-Takes l = process_reports-Takes _

  react-Takes :
      (event : MarketEvent) (e : EngineOf R S V H)
      → Takes max_intent_steps e.oms (react R S V H event e).oms
  unfolding react give_buffers ask_strategy take_buffers
  react-Takes event e =
      Takes-add 0 max_intent_steps _ _ _ (update_venue-Takes (take_buffers R S V H e))
        (handle_intent_queue-Takes _ _ _)

  -- A timer tick keeps the orders of the engine valid, and takes 1024 order ids at most, whatever the
  -- strategy, the risk policies and the venue do. There are as many ids left below 2 ^ 64.
  pub on_timer-Takes :
      (ts_ns : ℕ) (symbol : SymbolId) (e : EngineOf R S V H)
      → Takes max_intent_steps e.oms (on_timer R S V H ts_ns symbol e).oms
  unfolding on_timer give_buffers take_buffers
  on_timer-Takes ts_ns symbol e = handle_intent_queue-Takes ts_ns symbol _

  -- Handling a market event keeps the orders of the engine valid, and takes 1024 order ids at most,
  -- whatever the strategy, the risk policies and the venue do. There are as many ids left below 2 ^
  -- 64.
  pub on_market_event-Takes :
      (elapsed_ns : ℕ) (event : MarketEvent) (e : EngineOf R S V H)
      → Takes max_intent_steps e.oms (on_market_event R S V H elapsed_ns event e).0.oms
  unfolding on_market_event on_market_event_deterministic
  on_market_event-Takes elapsed_ns event e = elim (Bool-cases (apply e.book event).1) [
    | inl applied ↦ rw applied (react-Takes event (record e { book = (apply e.book event).0 }))
    | inr dropped ↦ rw dropped (Takes-refl max_intent_steps e.oms)
  ]
