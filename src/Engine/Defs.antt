-- ===== src/Engine/Defs.antt =====
-- engine/src/lib.rs: the event loop that joins book, strategy, risk, OMS, venue and portfolio. The
-- traits are parameters; the book that the engine and the venue share is a field of the engine.
use orderbook_replay_lab.Base.{
  ℕ, zero, suc, Bool, true, false, Option, none, some, List, [], ◌∷◌, ◌++◌, if◌then◌else◌, nat_eq,
  text_eq,
}
use orderbook_replay_lab.Core.Types.{SymbolId, MarketEvent, l2_delta, l2_snapshot}
use orderbook_replay_lab.Trading.{ExecutionReport, Intent}
use orderbook_replay_lab.Api.{ContextSnapshot, context, Strategy}
use orderbook_replay_lab.Book.Defs.{OrderBook, best_bid, best_ask}
use orderbook_replay_lab.Book
use orderbook_replay_lab.Metrics
use orderbook_replay_lab.Metrics.{Histogram, record_latency}
use orderbook_replay_lab.Oms.Defs.{Oms, VenueRequest, open_orders}
use orderbook_replay_lab.Oms
use orderbook_replay_lab.Portfolio.Defs.{Portfolio}
use orderbook_replay_lab.Portfolio
use orderbook_replay_lab.Risk.Defs.{RiskPolicy, RiskAction, evaluate}
use orderbook_replay_lab.Venue.Port.{ExecutionVenue}

abbrev pub max_intent_steps : ℕ
max_intent_steps = 1024

-- The parts over the states of the risk policies, the strategy, the venue and the histogram.
pub record Engine (P S V H : Type 0) : Type 0 where
  pub book : OrderBook
  pub portfolio : Portfolio
  pub oms : Oms
  pub risk : List P
  pub strategy : S
  pub venue : V
  pub latency : Option H
  pub intent_queue : List Intent
  pub intent_buffer : List Intent
  pub report_buffer : List ExecutionReport

-- The engine with the three local vectors of its loops: `queue`, `reports` and `intents`.
pub record Loop (P S V H : Type 0) : Type 0 where
  pub engine : Engine P S V H
  pub queue : List Intent
  pub reports : List ExecutionReport
  pub intents : List Intent

unfoldable pub build_context : {P S V H : Type 0} → Engine P S V H → ℕ → SymbolId → ContextSnapshot
build_context e ts_ns symbol =
    context ts_ns symbol (best_bid e.book) (best_ask e.book)
      (Portfolio.Defs.position_lots e.portfolio symbol) (open_orders e.oms)

abbrev pub event_ts_ns : MarketEvent → ℕ
event_ts_ns (l2_delta ts_ns symbol updates) = ts_ns
event_ts_ns (l2_snapshot ts_ns symbol bids asks) = ts_ns

abbrev pub event_symbol : MarketEvent → SymbolId
event_symbol (l2_delta ts_ns symbol updates) = symbol
event_symbol (l2_snapshot ts_ns symbol bids asks) = symbol

module _ (R : RiskPolicy) (S : Strategy) (V : ExecutionVenue) (H : Histogram) where
  abbrev pub EngineOf : Type 0
  EngineOf = Engine R.State S.State V.State H.H

  abbrev pub LoopOf : Type 0
  LoopOf = Loop R.State S.State V.State H.H

  -- The book is shared with the venue, which gets it as an argument.
  unfoldable pub with_shared_book :
      OrderBook → Portfolio → Oms → List R.State → S.State → V.State → EngineOf
  with_shared_book book portfolio oms risk strategy venue = record {
    book = book;
    portfolio = portfolio;
    oms = oms;
    risk = risk;
    strategy = strategy;
    venue = venue;
    latency = Metrics.new H;
    intent_queue = [];
    intent_buffer = [];
    report_buffer = [];
  }

  -- The body of `process_reports` for one report.
  unfoldable pub process_report : ExecutionReport → LoopOf → LoopOf
  process_report report l =
      let e = record l.engine {
        oms = Oms.Defs.on_execution_report l.engine.oms report;
        portfolio = Portfolio.Defs.on_execution_report l.engine.portfolio report;
      } in
      let report_ctx = build_context e report.ts_ns report.symbol in
      let (strategy, intents) = S.on_execution_report report_ctx report e.strategy [] in
      record l {
        engine = record e { strategy = strategy };
        queue = l.queue ++ intents;
        intents = [];
      }

  -- `for report in reports.drain(..)`
  unfoldable pub drain_reports : List ExecutionReport → LoopOf → LoopOf
  drain_reports [] l = l
  drain_reports (report ∷ reports) l = drain_reports reports (process_report report l)

  unfoldable pub process_reports : LoopOf → LoopOf
  process_reports l = drain_reports l.reports (record l { reports = [] })

  -- A request that the OMS made goes to the venue, and the reports come back.
  unfoldable pub route : Option VenueRequest → LoopOf → LoopOf
  route none l = l
  route (some request) l =
      let (book, venue, reports) = V.submit l.engine.book request l.engine.venue [] in
      process_reports
        (record l { engine = record l.engine { book = book; venue = venue }; reports = reports })

  -- What follows the decision of the risk engine.
  unfoldable pub act : ℕ → RiskAction → LoopOf → LoopOf
  act ts_ns (RiskAction.allow intent) l =
      let (oms, request) = Oms.Defs.apply_intent l.engine.oms intent ts_ns in
      route request (record l { engine = record l.engine { oms = oms } })
  act ts_ns (RiskAction.transform intent) l =
      let (oms, request) = Oms.Defs.apply_intent l.engine.oms intent ts_ns in
      route request (record l { engine = record l.engine { oms = oms } })
  act ts_ns (RiskAction.reject reason) l = l

  -- The body of the loop of `handle_intent_queue`, for an intent off the queue.
  unfoldable pub process_intent : ℕ → SymbolId → Intent → LoopOf → LoopOf
  process_intent ts_ns symbol intent l =
      let intent_ctx = build_context l.engine ts_ns symbol in
      let (decision, risk) = evaluate R intent_ctx intent l.engine.risk in
      act ts_ns decision (record l { engine = record l.engine { risk = risk } })

  -- The loop: `steps` counts down from `MAX_INTENT_STEPS`. At the limit one more intent is taken off
  -- the queue before the loop breaks.
  unfoldable pub handle_intents : ℕ → ℕ → SymbolId → List Intent → LoopOf → LoopOf
  handle_intents steps ts_ns symbol [] l = l
  handle_intents zero ts_ns symbol (intent ∷ queue) l = record l { queue = queue }
  handle_intents (suc steps) ts_ns symbol (intent ∷ queue) l =
      let l' = process_intent ts_ns symbol intent (record l { queue = queue }) in
      handle_intents steps ts_ns symbol l'.queue l'

  unfoldable pub handle_intent_queue : ℕ → SymbolId → LoopOf → LoopOf
  handle_intent_queue ts_ns symbol l = handle_intents max_intent_steps ts_ns symbol l.queue l

  -- `mem::take` of the three buffers, cleared.
  unfoldable pub take_buffers : EngineOf → LoopOf
  take_buffers e = record {
    engine = record e { intent_queue = []; intent_buffer = []; report_buffer = [] };
    queue = [];
    reports = [];
    intents = [];
  }

  unfoldable pub give_buffers : LoopOf → EngineOf
  give_buffers l = record l.engine {
    intent_queue = l.queue;
    intent_buffer = l.intents;
    report_buffer = l.reports;
  }

  -- The venue sees the new book.
  unfoldable pub update_venue : LoopOf → LoopOf
  update_venue l =
      let (book, venue, reports) = V.on_book_update l.engine.book l.engine.venue l.reports in
      process_reports
        (record l { engine = record l.engine { book = book; venue = venue }; reports = reports })

  -- The strategy sees the event, and its intents are queued.
  unfoldable pub ask_strategy : ContextSnapshot → MarketEvent → LoopOf → LoopOf
  ask_strategy ctx event l =
      let (strategy, intents) = S.on_market_event ctx event l.engine.strategy l.intents in
      record l {
        engine = record l.engine { strategy = strategy };
        queue = l.queue ++ intents;
        intents = [];
      }

  -- The part of `on_market_event_deterministic` behind its early return.
  unfoldable pub react : MarketEvent → EngineOf → EngineOf
  react event e =
      let ts_ns = event_ts_ns event in
      let symbol = event_symbol event in
      let l = update_venue (take_buffers e) in
      let ctx = build_context l.engine ts_ns symbol in
      give_buffers (handle_intent_queue ts_ns symbol (ask_strategy ctx event l))

  unfoldable pub on_market_event_deterministic : MarketEvent → EngineOf → EngineOf × Bool
  on_market_event_deterministic event e =
      let (book, applied) = Book.Defs.apply e.book event in
      let e' = record e { book = book } in if applied then (react event e', true) else (e', false)

  -- `elapsed_ns` is what the clock measured.
  unfoldable pub on_market_event : ℕ → MarketEvent → EngineOf → EngineOf × Bool
  on_market_event elapsed_ns event e =
      let (e', applied) = on_market_event_deterministic event e in
      if applied
      then (
        record e' { latency = record_latency H (Prim.Native.Nat.max elapsed_ns 1) e'.latency },
        true,
      )
      else (e', false)

  unfoldable pub on_timer : ℕ → SymbolId → EngineOf → EngineOf
  on_timer ts_ns symbol e =
      let l = take_buffers e in
      let ctx = build_context l.engine ts_ns symbol in
      let (strategy, intents) = S.on_timer ctx l.engine.strategy l.intents in
      give_buffers (
        handle_intent_queue ts_ns symbol (record l {
          engine = record l.engine { strategy = strategy };
          queue = l.queue ++ intents;
          intents = [];
        }))
