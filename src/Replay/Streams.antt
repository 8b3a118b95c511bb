-- ===== src/Replay/Streams.antt =====
-- The loop `while let Some(event) = reader.next_event()?` over a reader of replay/src/lib.rs, and the
-- events that the bytes of a binary log hold.
use orderbook_replay_lab.Base.{
  ℕ, zero, suc, ◌≡◌, refl, Option, none, some, List, [], ◌∷◌, nat_eq, text_eq,
}
use orderbook_replay_lab.Base.Result.{Result, ok, err}
use orderbook_replay_lab.Core.Types.{MarketEvent}
use mathlib.Core.Option
use orderbook_replay_lab.Core.Symbols.{SymbolTable}
use orderbook_replay_lab.Codec.Defs.{Bytes, Crates}
use orderbook_replay_lab.Replay.Port.{Files}
use orderbook_replay_lab.Replay.Buffered.{Next, Failure}
use orderbook_replay_lab.Replay.Next.{Outcome, stop, fail, event, next_in, Does}

-- What the loop sees in `calls` calls at most: the events, and the error that ended it if there was
-- one. `none` means that the reader has not ended by then.
unfoldable pub read_all :
    {S E : Type 0}
    → (S → Result E (Option MarketEvent) × S)
    → ℕ
    → S
    → Option (List (Result E MarketEvent))
read_all next zero s = none
read_all next (suc calls) s =
    let (r, s') = next s in
    let rest = read_all next calls s' in
    elim r [
      | err e ↦ some (err e ∷ [])
      | ok none ↦ some []
      | ok (some e) ↦ Option.map (λ es. ok e ∷ es) rest
    ]

-- The loop over a reader that is opened first.
unfoldable pub read_log :
    {S E : Type 0}
    → (S → Result E (Option MarketEvent) × S)
    → ℕ
    → Result E S
    → Option (List (Result E MarketEvent))
read_log next calls (err e) = some (err e ∷ [])
read_log next calls (ok s) = read_all next calls s

module _ (F : Files) (X : Crates) where
  -- The same of the bytes themselves.
  unfoldable pub events_in :
      ℕ → Bytes → SymbolTable → Option (List (Result (Failure F X) MarketEvent))
  events_in zero bytes symbols = none
  events_in (suc calls) bytes symbols = elim (next_in F X bytes symbols) [
    | stop ↦ some []
    | fail e ↦ some (err e ∷ [])
    | event symbols' e rest ↦ Option.map (λ es. ok e ∷ es) (events_in calls rest symbols')
  ]

  -- A reader that does what its bytes say, as long as `P` holds of it, sees the events of its bytes.
  module _ {S : Type 0} (next : S → Next F X × S) (rest : S → Bytes) (symbols : S → SymbolTable)
      (P : S → Type 0) (keeps : (s : S) → P s → P (next s).1)
      (does : (s : S)
        → P s
        → Does F X rest symbols (next s) (next_in F X (rest s) (symbols s))) where
    follow :
        (calls : ℕ) (p : Next F X × S) (o : Outcome (Failure F X))
        → Does F X rest symbols p o
        → (read_all next calls p.1 ≡ events_in calls (rest p.1) (symbols p.1))
        → elim p.0 as (λ _. Option (List (Result (Failure F X) MarketEvent))) [
          | err e ↦ some (err e ∷ [])
          | ok none ↦ some []
          | ok (some e) ↦ Option.map (λ es. ok e ∷ es) (read_all next calls p.1)
        ]
          ≡ elim o as (λ _. Option (List (Result (Failure F X) MarketEvent))) [
            | stop ↦ some []
            | fail e ↦ some (err e ∷ [])
            | event symbols' e bytes ↦ Option.map (λ es. ok e ∷ es) (events_in calls bytes symbols')
          ]
    follow calls p stop d ih = rw d refl
    follow calls p (fail e) d ih = rw d refl
    follow calls p (event t e bytes) d ih = rw (d.0, ih, d.1, d.2) refl

    pub read_all-events :
        (calls : ℕ) (s : S) → P s → read_all next calls s ≡ events_in calls (rest s) (symbols s)
    unfolding read_all events_in
    read_all-events zero s h = refl
    read_all-events (suc calls) s h =
        follow calls (next s) (next_in F X (rest s) (symbols s)) (does s h)
          (read_all-events calls (next s).1 (keeps s h))
