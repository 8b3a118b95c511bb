-- ===== src/Engine/Book.antt =====
-- The book of engine/src/lib.rs: the event loop changes it by the market events alone.
use orderbook_replay_lab.Base.{
  ℕ, zero, suc, ◌≡◌, refl, ◌∙◌, inl, inr, Option, none, some, List, [], ◌∷◌, Bool-cases, nat_eq,
  text_eq,
}
use orderbook_replay_lab.Core.Types.{SymbolId, MarketEvent}
use orderbook_replay_lab.Trading.{ExecutionReport, Intent}
use orderbook_replay_lab.Api.{Strategy}
use orderbook_replay_lab.Book.Defs.{apply}
use orderbook_replay_lab.Oms.Defs.{VenueRequest}
use orderbook_replay_lab.Risk.Defs.{RiskAction, RiskPolicy}
use orderbook_replay_lab.Venue.Port.{ExecutionVenue, ReadsBook}
use orderbook_replay_lab.Metrics.{Histogram}
use orderbook_replay_lab.Engine.Defs.{
  EngineOf, LoopOf, process_report, drain_reports, process_reports, route, act, process_intent,
  handle_intents, handle_intent_queue, take_buffers, give_buffers, update_venue, ask_strategy,
  react, on_market_event_deterministic, on_market_event, on_timer,
}

module _ (R : RiskPolicy) (S : Strategy) (V : ExecutionVenue) (H : Histogram)
    (reads : ReadsBook V) where
  drain_reports-book :
      (reports : List ExecutionReport) (l : LoopOf R S V H)
      → (drain_reports R S V H reports l).engine.book ≡ l.engine.book
  unfolding drain_reports process_report
  drain_reports-book [] l = refl
  drain_reports-book (r ∷ rs) l = drain_reports-book rs (process_report R S V H r l)

  process_reports-book :
      (l : LoopOf R S V H) → (process_reports R S V H l).engine.book ≡ l.engine.book
  unfolding process_reports
  process_reports-book l = drain_reports-book l.reports (record l { reports = [] })

  route-book :
      (request : Option VenueRequest) (l : LoopOf R S V H)
      → (route R S V H request l).engine.book ≡ l.engine.book
  unfolding route
  route-book none l = refl
  route-book (some request) l =
      let (book, venue, reports) = V.submit l.engine.book request l.engine.venue [] in
      process_reports-book
        (record l { engine = record l.engine { book = book; venue = venue }; reports = reports })
      ∙ reads.submits l.engine.book request l.engine.venue []

  act-book :
      (ts_ns : ℕ) (decision : RiskAction) (l : LoopOf R S V H)
      → (act R S V H ts_ns decision l).engine.book ≡ l.engine.book
  unfolding act
  act-book ts_ns (RiskAction.allow intent) l = route-book _ _
  act-book ts_ns (RiskAction.transform intent) l = route-book _ _
  act-book ts_ns (RiskAction.reject reason) l = refl

  process_intent-book :
      (ts_ns : ℕ) (symbol : SymbolId) (intent : Intent) (l : LoopOf R S V H)
      → (process_intent R S V H ts_ns symbol intent l).engine.book ≡ l.engine.book
  unfolding process_intent
  process_intent-book ts_ns symbol intent l = act-book ts_ns _ _

  handle_intents-book :
      (steps ts_ns : ℕ) (symbol : SymbolId) (queue : List Intent) (l : LoopOf R S V H)
      → (handle_intents R S V H steps ts_ns symbol queue l).engine.book ≡ l.engine.book
  unfolding handle_intents
  handle_intents-book steps ts_ns symbol [] l = refl
  handle_intents-book zero ts_ns symbol (intent ∷ queue) l = refl
  handle_intents-book (suc steps) ts_ns symbol (intent ∷ queue) l =
      let l' = process_intent R S V H ts_ns symbol intent (record l { queue = queue }) in
      handle_intents-book steps ts_ns symbol l'.queue l'
      ∙ process_intent-book ts_ns symbol intent (record l { queue = queue })

  handle_intent_queue-book :
      (ts_ns : ℕ) (symbol : SymbolId) (l : LoopOf R S V H)
      → (handle_intent_queue R S V H ts_ns symbol l).engine.book ≡ l.engine.book
  unfolding handle_intent_queue
  handle_intent_queue-book ts_ns symbol l = handle_intents-book _ ts_ns symbol l.queue l

  update_venue-book : (l : LoopOf R S V H) → (update_venue R S V H l).engine.book ≡ l.engine.book
  unfolding update_venue
  update_venue-book l =
      process_reports-book _ ∙ reads.updates l.engine.book l.engine.venue l.reports

  react-book : (event : MarketEvent) (e : EngineOf R S V H) → (react R S V H event e).book ≡ e.book
  unfolding react give_buffers ask_strategy take_buffers
  react-book event e = handle_intent_queue-book _ _ _ ∙ update_venue-book (take_buffers R S V H e)

  pub on_timer-book :
      (ts_ns : ℕ) (symbol : SymbolId) (e : EngineOf R S V H)
      → (on_timer R S V H ts_ns symbol e).book ≡ e.book
  unfolding on_timer give_buffers take_buffers
  on_timer-book ts_ns symbol e = handle_intent_queue-book ts_ns symbol _

  -- Handling a market event leaves in the engine the book with the event applied, and tells whether
  -- it was applied, whatever the strategy, the risk policies and the venue's reports do in between. The
  -- venue shares the book, and only reads it, as the simulated venue does.
  pub on_market_event-book :
      (elapsed_ns : ℕ) (event : MarketEvent) (e : EngineOf R S V H)
      → ((on_market_event R S V H elapsed_ns event e).0.book ≡ (apply e.book event).0)
        × ((on_market_event R S V H elapsed_ns event e).1 ≡ (apply e.book event).1)
  unfolding on_market_event on_market_event_deterministic
  on_market_event-book elapsed_ns event e = elim (Bool-cases (apply e.book event).1) [
    | inl applied ↦ rw applied (react-book event (record e { book = (apply e.book event).0 }), refl)
    | inr dropped ↦ rw dropped (refl, refl)
  ]
