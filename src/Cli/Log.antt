-- ===== src/Cli/Log.antt =====
-- cli/src/main.rs: `run_replay` over the reader of replay/src/lib.rs. The measurements of latency and
-- throughput and the printed lines are not modelled.
use orderbook_replay_lab.Base.{
  ℕ, zero, suc, ◌≡◌, refl, ap, ◌∙◌, Bool, true, false, Option, none, some, List, [], ◌∷◌, arith,
  if◌then◌else◌, nat_eq, Text, text_eq,
}
use orderbook_replay_lab.Base.Result.{Result, ok, err, ◌>>=◌}
use orderbook_replay_lab.Core.Types.{MarketEvent, Price, Qty}
use orderbook_replay_lab.Book.Defs.{OrderBook, best_bid, best_ask}
use orderbook_replay_lab.Book
use mathlib.Core.Option
use orderbook_replay_lab.Codec.Defs.{Crates}
use orderbook_replay_lab.Replay.Port.{Files, ReplayFormat, jsonl, bin}
use orderbook_replay_lab.Replay.Buffered.{
  Failure, Next, Reader, open_with_format_and_predeclared_symbols,
}
use orderbook_replay_lab.Replay.Buffered
use orderbook_replay_lab.Replay.Streams.{read_all}
use orderbook_replay_lab.Cli.Simulate.{ReplayCounts, at_limit, tally, replay_loop}

pub data LogFormat : Type 0 where
  jsonl_log bin_log : LogFormat

-- The match at the start of `run_replay` and `run_simulate`.
abbrev pub replay_format : LogFormat → ReplayFormat
replay_format LogFormat.jsonl_log = jsonl
replay_format LogFormat.bin_log = bin

abbrev pub no_counts : ReplayCounts
no_counts = record { total_events_read = 0; events_applied = 0; events_dropped = 0 }

-- What is printed of the book and the counts.
pub record ReplaySummary : Type 0 where
  pub counts : ReplayCounts
  pub best_bid : Option (Price × Qty)
  pub best_ask : Option (Price × Qty)

abbrev pub summary_of : OrderBook × ReplayCounts → ReplaySummary
summary_of (book, c) = record {
  counts = c;
  best_bid = Book.Defs.best_bid book;
  best_ask = Book.Defs.best_ask book;
}

module _ (F : Files) (X : Crates) where
  -- `while let Some(event) = reader.next_event()?`, in `calls` calls at most; `none` means that the
  -- loop has not ended by then.
  unfoldable pub replay_reader :
      ℕ
      → Option ℕ
      → Reader F X
      → OrderBook
      → ReplayCounts
      → Option (Result (Failure F X) (OrderBook × ReplayCounts))
  replay_reader zero limit reader book c = none
  replay_reader (suc calls) limit reader book c =
      let (next, reader') = Buffered.next_event F X reader in
      elim next [
        | err e ↦ some (err e)
        | ok none ↦ some (ok (book, c))
        | ok (some event) ↦
            (let (book', applied) = Book.Defs.apply book event in
              let c' = tally applied c in
              let rest = replay_reader calls limit reader' book' c' in
              if at_limit limit c'.total_events_read then some (ok (book', c')) else rest)
      ]

  unfoldable pub replay_opened :
      ℕ → Option ℕ → Result (Failure F X) (Reader F X) → Option (Result (Failure F X) ReplaySummary)
  replay_opened calls limit (err e) = some (err e)
  replay_opened calls limit (ok reader) =
      Option.map (λ r. r >>= λ s. ok (summary_of s))
        (replay_reader calls limit reader (Book.Defs.new 0) no_counts)

  unfoldable pub run_replay :
      ℕ → F.Location → Text → Option ℕ → LogFormat → Option (Result (Failure F X) ReplaySummary)
  run_replay calls input symbol limit format =
      replay_opened calls limit
        (open_with_format_and_predeclared_symbols F X input (replay_format format) (symbol ∷ []))

  abbrev Results : Type 0
  Results = List (Result (Failure F X) MarketEvent)

  some_results : Option Results → Results
  some_results none = []
  some_results (some es) = es

  results_eq : (a b : Results) → some a ≡ some b → a ≡ b
  unfolding some_results
  results_eq a b h = ap some_results h

  map-some :
      (e : MarketEvent) (o : Option Results) (results : Results)
      → Option.map (λ es. ok e ∷ es) o ≡ some results
      → (es : Results) × (o ≡ some es) × (ok e ∷ es ≡ results)
  map-some e none results h = absurd (ground (arith, h))
  map-some e (some es) results h = (es, refl, results_eq (ok e ∷ es) results h)

  some_if :
      {A : Type 0} (b : Bool) (x y : A) → (if b then some x else some y) ≡ some (if b then x else y)
  some_if true x y = refl
  some_if false x y = refl

  -- A step of the loop, for what the reader returns.
  follow :
      (calls : ℕ) (limit : Option ℕ) (book : OrderBook) (c : ReplayCounts)
      (p : Next F X × Reader F X) (results : Results)
      → ((book' : OrderBook) (c' : ReplayCounts) (es : Results)
          → read_all (Buffered.next_event F X) calls p.1 ≡ some es
          → replay_reader calls limit p.1 book' c' ≡ some (replay_loop limit es book' c'))
      → elim p.0 as (λ _. Option Results) [
        | err e ↦ some (err e ∷ [])
        | ok none ↦ some []
        | ok (some e) ↦ Option.map (λ es. ok e ∷ es) (read_all (Buffered.next_event F X) calls p.1)
      ]
        ≡ some results
      → elim p.0 as (λ _. Option (Result (Failure F X) (OrderBook × ReplayCounts))) [
        | err e ↦ some (err e)
        | ok none ↦ some (ok (book, c))
        | ok (some event) ↦
            (let (book', applied) = Book.Defs.apply book event in
              let c' = tally applied c in
              let rest = replay_reader calls limit p.1 book' c' in
              if at_limit limit c'.total_events_read then some (ok (book', c')) else rest)
      ]
        ≡ some (replay_loop limit results book c)
  unfolding replay_loop
  follow calls limit book c (err e, r) results ih h =
      ap (λ es. some (replay_loop limit es book c)) (results_eq (err e ∷ []) results h)
  follow calls limit book c (ok none, r) results ih h =
      ap (λ es. some (replay_loop limit es book c)) (results_eq [] results h)
  follow calls limit book c (ok (some e), r) results ih h =
      let (es, seen, whole) = map-some e (read_all (Buffered.next_event F X) calls r) results h in
      let (book', applied) = Book.Defs.apply book e in
      let c' = tally applied c in
      rw (ih book' c' es seen) (
        some_if (at_limit limit c'.total_events_read) (ok (book', c'))
          (replay_loop limit es book' c')
        ∙ ap (λ rs. some (replay_loop limit rs book c)) whole)

  -- The loop over the reader is the loop over what the reader returns, as long as that comes to an
  -- end.
  pub replay_reader-loop :
      (calls : ℕ) (limit : Option ℕ) (reader : Reader F X) (book : OrderBook) (c : ReplayCounts)
      (results : List (Result (Failure F X) MarketEvent))
      → read_all (Buffered.next_event F X) calls reader ≡ some results
      → replay_reader calls limit reader book c ≡ some (replay_loop limit results book c)
  unfolding replay_reader read_all
  replay_reader-loop zero limit reader book c results h = absurd (ground (arith, h))
  replay_reader-loop (suc calls) limit reader book c results h =
      let p = Buffered.next_event F X reader in
      follow calls limit book c p results
        (λ book' c' es. replay_reader-loop calls limit p.1 book' c' es) h
