-- ===== src/Cli/Written.antt =====
-- cli/src/main.rs: `run_replay` of a log that codec/src/lib.rs has written.
use orderbook_replay_lab.Base.{
  ℕ, ◌+◌, ◌<◌, ◌≡◌, refl, Bool, true, false, none, some, List, [], ◌∷◌, map, arith, length, u64_mod,
  add_u64, nat_eq, Text, text_eq,
}
use orderbook_replay_lab.Base.Result.{ok}
use orderbook_replay_lab.Core.Types.{MarketEvent}
use orderbook_replay_lab.Core.Symbols.{SymbolTable, try_from_symbols}
use orderbook_replay_lab.Core.Tables.{try_from_symbols-IsSound}
use orderbook_replay_lab.Book.Defs.{OrderBook, new, apply, best_bid, best_ask}
use orderbook_replay_lab.Core.Types.{SymbolId}
use orderbook_replay_lab.Book.Symbols.{apply-symbol, apply-applied}
use orderbook_replay_lab.Book.Refinement.{symbol_of}
use orderbook_replay_lab.Base.{◌==◌, ap, ◌∙◌, if◌then◌else◌, Bool, true, false}
use orderbook_replay_lab.Book.Best.{replay}
use orderbook_replay_lab.Codec.Defs.{Bytes, Crates}
use orderbook_replay_lab.Codec.Events.{ReadsBack}
use orderbook_replay_lab.Replay.Port.{Files, bin}
use orderbook_replay_lab.Replay.Buffered.{
  Failure, Reader, open_with_format_and_symbols, open_with_format_and_predeclared_symbols,
}
use orderbook_replay_lab.Replay.Fill.{Serves}
use orderbook_replay_lab.Replay.Written.{records_of}
use orderbook_replay_lab.Replay.Logs.{written_log-reads_back}
use Prim.Native.Nat.{max}
use orderbook_replay_lab.Base.{Option, ◌-◌, leb, take, Bool-cases, inl, inr, suc}
use orderbook_replay_lab.Base.Slices.{take-nil}
use orderbook_replay_lab.Cli.Simulate.{at_limit, ReplayCounts, tally, replay_loop}
use orderbook_replay_lab.Cli.Log.{
  bin_log, ReplaySummary, summary_of, no_counts, replay_reader-loop, replay_opened, run_replay,
}

-- How many of the events are for the book's symbol.
unfoldable pub events_for : SymbolId → List MarketEvent → ℕ
events_for symbol [] = 0
events_for symbol (e ∷ events) = (if symbol_of e == symbol then 1 else 0) + events_for symbol events

-- The counts after `n` events, of which `k` were applied.
abbrev Counted : ℕ → ℕ → ReplayCounts → Type 0
Counted n k c = (c.total_events_read ≡ n) × (c.events_applied ≡ k) × (c.events_dropped + k ≡ n)

tally-Counted :
    (n k : ℕ) (applied : Bool) (c : ReplayCounts)
    → n + 1 < u64_mod
    → Counted n k c
    → Counted (n + 1) (k + (if applied then 1 else 0)) (tally applied c)
unfolding add_u64
tally-Counted n k true c h (read, applied, dropped) =
    (omega (arith, read), omega (arith, applied, dropped), omega (arith, dropped))
tally-Counted n k false c h (read, applied, dropped) =
    (omega (arith, read), omega (arith, applied), omega (arith, dropped))

-- The events that are read under a limit when `n` have been read: all without a limit; else what is
-- left of it, and one at least, since the limit is looked at behind an event.
abbrev read_after : ℕ → Option ℕ → List MarketEvent → List MarketEvent
read_after n none events = events
read_after n (some limit) events = take (max (limit - n) 1) events

-- The events that `replay` reads under a limit: all without a limit, else the first ones up to the
-- limit, and one for the limit 0.
abbrev pub first_events : Option ℕ → List MarketEvent → List MarketEvent
first_events none events = events
first_events (some limit) events = take (max limit 1) events

read_after-start :
    (limit : Option ℕ) (events : List MarketEvent)
    → read_after 0 limit events ≡ first_events limit events
read_after-start none events = refl
read_after-start (some limit) events = ap (λ n. take (max n 1) events) (omega arith)

-- At the limit the event is the last, and below it the others follow.
read_after-limit :
    (n : ℕ) (limit : Option ℕ) (e : MarketEvent) (events : List MarketEvent)
    → read_after n limit (e ∷ events)
      ≡ e ∷ (if at_limit limit (n + 1) then [] else read_after (n + 1) limit events)
read_after-limit n none e events = refl
read_after-limit n (some limit) e events = elim (Bool-cases (leb limit (n + 1))) [
  | inl reached ↦
      (let one : max (limit - n) 1 ≡ 1 = ground (arith, reached) in rw (one, reached) refl)
  | inr more ↦
      (let count : max (limit - n) 1 ≡ suc (max (limit - (n + 1)) 1) = ground (arith, more) in
        rw (count, more) refl)
]

replay_loop-events :
    (E : Type 0) (limit : Option ℕ) (events : List MarketEvent) (n k : ℕ) (symbol : SymbolId)
    (book : OrderBook) (c : ReplayCounts)
    → n + length events < u64_mod
    → book.symbol ≡ symbol
    → Counted n k c
    → let seen = read_after n limit events in
      (c' : ReplayCounts) × (replay_loop {E = E} limit (map ok events) book c
        ≡ ok (replay seen book, c'))
      × Counted (n + length seen) (k + events_for symbol seen) c'
unfolding replay_loop replay events_for
replay_loop-events E none [] n k symbol book c room same (read, applied, dropped) =
    (c, refl, (omega (arith, read), omega (arith, applied), omega (arith, dropped)))
replay_loop-events E (some limit) [] n k symbol book c room same (read, applied, dropped) =
    rw (take-nil (max (limit - n) 1))
      (c, refl, (omega (arith, read), omega (arith, applied), omega (arith, dropped)))
replay_loop-events E limit (e ∷ events) n k symbol book c room same counted =
    let (book', applied) = apply book e in
    let one : ℕ = if applied then 1 else 0 in
    let c1 = tally applied c in
    let counted' = tally-Counted n k applied c (omega arith) counted in
    let own : one ≡ (if symbol_of e == symbol then 1 else 0) =
      ap (λ b. if b then 1 else 0) (apply-applied book e ∙ ap (λ x. symbol_of e == x) same) in
    let (c', seen, (read, all_applied, dropped)) =
      replay_loop-events E limit events (n + 1) (k + one) symbol book' c1 (omega arith)
        (apply-symbol book e ∙ same) counted' in
    elim (Bool-cases (at_limit limit (n + 1))) [
      | inl reached ↦
          rw (read_after-limit n limit e events, reached, ap (at_limit limit) counted'.0 ∙ reached)
            (
              c1,
              refl,
              (
                omega (arith, counted'.0),
                omega (arith, counted'.1, own),
                omega (arith, counted'.2, own),
              ),
            )
      | inr more ↦
          rw (read_after-limit n limit e events, more, ap (at_limit limit) counted'.0 ∙ more)
            (
              c',
              seen,
              (omega (arith, read), omega (arith, all_applied, own), omega (arith, dropped, own)),
            )
    ]

module _ (F : Files) (X : Crates) (rest : F.File → Bytes) (laws : Serves F rest)
    (reads : ReadsBack X) where
  pub run_replay-summary :
      (path : F.Location) (symbol : Text) (limit : Option ℕ) (t : SymbolTable) (file : F.File)
      (events : List MarketEvent) (bytes : Bytes) (calls : ℕ)
      → F.open_file path ≡ ok file
      → try_from_symbols (symbol ∷ []) ≡ ok t
      → records_of X t events ≡ ok bytes
      → rest file ≡ bytes
      → length events < calls
      → length events < u64_mod
      → let seen = first_events limit events in
        (summary : ReplaySummary) × (run_replay F X calls path symbol limit bin_log
          ≡ some (ok summary))
        × (summary.counts.total_events_read ≡ length seen)
        × (summary.counts.events_applied ≡ events_for 0 seen)
        × (summary.counts.events_dropped + events_for 0 seen ≡ length seen)
        × (summary.best_bid ≡ best_bid (replay seen (new 0)))
        × (summary.best_ask ≡ best_ask (replay seen (new 0)))
  unfolding new run_replay replay_opened open_with_format_and_predeclared_symbols
      open_with_format_and_symbols
  run_replay-summary path symbol limit t file events bytes calls opened table written holds enough
        room =
      let (v, trimmed) = try_from_symbols-IsSound (symbol ∷ []) t table (omega arith) in
      let reader : Reader F X = record { reader = file; format = bin; symbols = t } in
      let (mapped, back) =
        written_log-reads_back F X rest laws reads t v trimmed events bytes calls file written holds
          enough in
      let (c', looped, (read, applied, dropped)) =
        replay_loop-events (Failure F X) limit events 0 0 0 (new 0) no_counts (omega arith) refl
          (refl, refl, refl) in
      let run = replay_reader-loop F X calls limit reader (new 0) no_counts (map ok events) back in
      let seen = read_after-start limit events in
      (
        summary_of (replay (first_events limit events) (new 0), c'),
        rw (table, opened, run, looped, seen) refl,
        omega (arith, read, ap length seen),
        omega (arith, applied, ap (events_for 0) seen),
        omega (arith, dropped, ap length seen, ap (events_for 0) seen),
        refl,
        refl,
      )
