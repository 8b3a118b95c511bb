-- ===== src/Cli/SameRun.antt =====
-- cli/src/main.rs: `run_simulate` and `run_replay` of the same file.
use orderbook_replay_lab.Base.{
  ℕ, zero, suc, ◌≡◌, refl, sym, ap, ◌∙◌, Bool, true, false, Option, none, some, [], ◌∷◌, arith,
  if◌then◌else◌, add_u64, nat_eq, Text, text_eq,
}
use orderbook_replay_lab.Base.Result.{Result, ok, err, ◌>>=◌}
use mathlib.Core.Option
use Prim.Native.Nat.{max}
use orderbook_replay_lab.Api.{Strategy}
use orderbook_replay_lab.Book.Defs.{OrderBook, apply, new}
use orderbook_replay_lab.Risk.Defs.{policies}
use orderbook_replay_lab.Venue.Sim.{sim_venue, sim_venue-ReadsBook}
use orderbook_replay_lab.Metrics.{Histogram}
use orderbook_replay_lab.Codec.Defs.{Crates}
use orderbook_replay_lab.Replay.Port.{Files}
use orderbook_replay_lab.Replay.Buffered.{
  Failure, Next, Reader, open_with_format_and_predeclared_symbols,
}
use orderbook_replay_lab.Replay.Buffered
use orderbook_replay_lab.Engine.Defs.{with_shared_book}
use orderbook_replay_lab.Cli.Counting.{counting_venue, counting_venue-ReadsBook}
use orderbook_replay_lab.Cli.Simulate.{ReplayCounts, tally, at_limit, simulate_event}
use orderbook_replay_lab.Cli.SameBook.{simulate_event-same}
use orderbook_replay_lab.Cli.Log.{
  LogFormat, replay_format, ReplaySummary, summary_of, no_counts, replay_reader, replay_opened,
  run_replay,
}
use orderbook_replay_lab.Cli.Run.{
  StrategyKind, SimulateStrategyConfig, make_strategy, SimulateSummary, Sim, sim_start,
  simulate_summary, simulate_reader, simulate_opened, run_simulate,
}

-- The events read and applied that both commands print, or the error.
abbrev pub read_by_replay : {E : Type 0} → Result E ReplaySummary → Result E (ℕ × ℕ)
read_by_replay r = r >>= λ s. ok (s.counts.total_events_read, s.counts.events_applied)

abbrev pub read_by_simulate : {E : Type 0} → Result E SimulateSummary → Result E (ℕ × ℕ)
read_by_simulate r = r >>= λ s. ok (s.events_read, s.events_applied)

module _ (F : Files) (X : Crates) (H : Histogram) where
  module _ (S : Strategy) where
    abbrev Same : Sim F X H S → OrderBook → ReplayCounts → Type 0
    Same s book c =
        (s.engine.book ≡ book)
        × (s.events_read ≡ c.total_events_read)
        × (s.events_applied ≡ c.events_applied)

    abbrev ends_sim :
        Option (Result (Failure F X) (Sim F X H S)) → Option (Result (Failure F X) (ℕ × ℕ))
    ends_sim o = Option.map (λ r. r >>= λ s. ok (s.events_read, s.events_applied)) o

    abbrev ends_replay :
        Option (Result (Failure F X) (OrderBook × ReplayCounts))
        → Option (Result (Failure F X) (ℕ × ℕ))
    ends_replay o = Option.map (λ r. r >>= λ p. ok (p.1.total_events_read, p.1.events_applied)) o

    branch :
        (b b' : Bool) (x r : Option (Result (Failure F X) (Sim F X H S)))
        (y q : Option (Result (Failure F X) (OrderBook × ReplayCounts)))
        → b ≡ b'
        → ends_sim x ≡ ends_replay y
        → ends_sim r ≡ ends_replay q
        → ends_sim (if b then x else r) ≡ ends_replay (if b' then y else q)
    branch true true x r y q same h k = h
    branch false false x r y q same h k = k
    branch true false x r y q same h k = absurd (ground (arith, same))
    branch false true x r y q same h k = absurd (ground (arith, same))

    -- A step of both loops, for what the reader returns.
    follow :
        (calls : ℕ) (clock : ℕ → ℕ) (limit : Option ℕ) (interval : ℕ) (p : Next F X × Reader F X)
        (s : Sim F X H S) (book : OrderBook) (c : ReplayCounts)
        → Same s book c
        → ((s' : Sim F X H S) (book' : OrderBook) (c' : ReplayCounts)
            → Same s' book' c'
            → ends_sim (simulate_reader F X H S calls clock limit interval p.1 s')
              ≡ ends_replay (replay_reader F X calls limit p.1 book' c'))
        → ends_sim (elim p.0 as (λ _. Option (Result (Failure F X) (Sim F X H S))) [
          | err e ↦ some (err e)
          | ok none ↦ some (ok s)
          | ok (some event) ↦
              (let s' =
                  simulate_event policies S
                    (counting_venue sim_venue)
                    H
                    interval
                    0
                    (event, clock s.events_read)
                    s in
                let rest = simulate_reader F X H S calls clock limit interval p.1 s' in
                if at_limit limit s'.events_read then some (ok s') else rest)
        ])
          ≡ ends_replay
              (elim p.0 as (λ _. Option (Result (Failure F X) (OrderBook × ReplayCounts))) [
                | err e ↦ some (err e)
                | ok none ↦ some (ok (book, c))
                | ok (some event) ↦
                    (let (book', applied) = apply book event in
                      let c' = tally applied c in
                      let rest = replay_reader F X calls limit p.1 book' c' in
                      if at_limit limit c'.total_events_read then some (ok (book', c')) else rest)
              ])
    follow calls clock limit interval (err e, r) s book c same ih = refl
    follow calls clock limit interval (ok none, r) s book c (b, n, k) ih = rw (n, k) refl
    follow calls clock limit interval (ok (some event), r) s book c (b, n, k) ih =
        let s' =
          simulate_event policies S (counting_venue sim_venue) H interval 0
            (event, clock s.events_read) s in
        let step =
          simulate_event-same policies S (counting_venue sim_venue) H
            (counting_venue-ReadsBook sim_venue sim_venue-ReadsBook) interval 0 event
            (clock s.events_read) s in
        let applied = apply book event in
        let c' = tally applied.1 c in
        let on_book : apply s.engine.book event ≡ applied = ap (λ x. apply x event) b in
        let book_same : s'.engine.book ≡ applied.0 = step.0 ∙ ap (λ p. p.0) on_book in
        let read_same : s'.events_read ≡ c'.total_events_read = step.1 ∙ ap (λ x. add_u64 x 1) n in
        let applied_same : s'.events_applied ≡ c'.events_applied =
          step.2
          ∙ ap (λ p. if p.1 then add_u64 s.events_applied 1 else s.events_applied) on_book
          ∙ ap (λ x. if applied.1 then add_u64 x 1 else x) k in
        let go = ih s' applied.0 c' (book_same, read_same, applied_same) in
        branch (at_limit limit s'.events_read) (at_limit limit c'.total_events_read) (some (ok s'))
          (simulate_reader F X H S calls clock limit interval r s') (some (ok (applied.0, c')))
          (replay_reader F X calls limit r applied.0 c') (ap (at_limit limit) read_same)
          (rw (read_same, applied_same) refl) go

    both_loops :
        (calls : ℕ) (clock : ℕ → ℕ) (limit : Option ℕ) (interval : ℕ) (reader : Reader F X)
        (s : Sim F X H S) (book : OrderBook) (c : ReplayCounts)
        → Same s book c
        → ends_sim (simulate_reader F X H S calls clock limit interval reader s)
          ≡ ends_replay (replay_reader F X calls limit reader book c)
    unfolding simulate_reader replay_reader
    both_loops zero clock limit interval reader s book c same = refl
    both_loops (suc calls) clock limit interval reader s book c same =
        let p = Buffered.next_event F X reader in
        follow calls clock limit interval p s book c same
          (λ s' book' c'. both_loops calls clock limit interval p.1 s' book' c')

    sim_of :
        (o : Option (Result (Failure F X) (Sim F X H S)))
        → Option.map read_by_simulate
            (Option.map (λ r. r >>= λ s. ok (simulate_summary F X H S s)) o)
          ≡ ends_sim o
    unfolding simulate_summary
    sim_of none = refl
    sim_of (some (err e)) = refl
    sim_of (some (ok s)) = refl

    replay_of :
        (o : Option (Result (Failure F X) (OrderBook × ReplayCounts)))
        → Option.map read_by_replay (Option.map (λ r. r >>= λ p. ok (summary_of p)) o)
          ≡ ends_replay o
    replay_of none = refl
    replay_of (some (err e)) = refl
    replay_of (some (ok p)) = refl

    opened_same :
        (calls : ℕ) (clock : ℕ → ℕ) (limit : Option ℕ) (interval : ℕ) (strategy : S.State)
        (opened : Result (Failure F X) (Reader F X))
        → Option.map read_by_simulate
            (simulate_opened F X H S calls clock limit interval strategy opened)
          ≡ Option.map read_by_replay (replay_opened F X calls limit opened)
    unfolding simulate_opened replay_opened sim_start with_shared_book
    opened_same calls clock limit interval strategy (err e) = refl
    opened_same calls clock limit interval strategy (ok reader) =
        sim_of (
          simulate_reader F X H S calls clock limit (max interval 1) reader
            (sim_start F X H S strategy))
        ∙ both_loops calls clock limit (max interval 1) reader (sim_start F X H S strategy) (new 0)
            no_counts (refl, refl, refl)
        ∙ sym (replay_of (replay_reader F X calls limit reader (new 0) no_counts))

  -- `simulate` and `replay` of the same file agree: for any file, whole or not, in both formats,
  -- with the same symbol and limit, both read and apply the same numbers of events, or stop at the
  -- same error, or have not ended after the same number of calls of the reader, whatever the
  -- strategy, its settings, the timer interval and the clock are.
  pub run_simulate-run_replay :
      (calls : ℕ) (clock : ℕ → ℕ) (input : F.Location) (symbol : Text) (strategy : StrategyKind)
      (config : SimulateStrategyConfig) (limit : Option ℕ) (interval : ℕ) (format : LogFormat)
      → Option.map read_by_simulate
          (run_simulate F X H calls clock input symbol strategy config limit interval format)
        ≡ Option.map read_by_replay (run_replay F X calls input symbol limit format)
  unfolding run_simulate run_replay
  run_simulate-run_replay calls clock input symbol strategy config limit interval format =
      let (S, state) = make_strategy strategy config in
      opened_same S calls clock limit interval state
        (open_with_format_and_predeclared_symbols F X input (replay_format format) (symbol ∷ []))
