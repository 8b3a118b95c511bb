-- ===== src/Replay/Written.antt =====
-- A log that codec/src/lib.rs has written record by record, read by replay/src/lib.rs.
use orderbook_replay_lab.Base.{
  ℕ, suc, ◌+◌, ◌≡◌, refl, sym, ap, ◌∙◌, Option, none, some, List, [], ◌∷◌, ◌++◌, map, arith, length,
  nat_eq, text_eq,
}
use orderbook_replay_lab.Base.Result.{Result, ok, ◌>>=◌, bind-ok, ok_inj}
use orderbook_replay_lab.Core.Types.{MarketEvent}
use mathlib.Core.Option
use mathlib.Core.List.{append_assoc}
use orderbook_replay_lab.Core.Symbols.{SymbolTable}
use orderbook_replay_lab.Core.Interning.{IsValid}
use orderbook_replay_lab.Core.Tables.{IsTrimmed}
use orderbook_replay_lab.Codec.Defs.{Bytes, CodecError, Crates, encode_event_bin_record}
use orderbook_replay_lab.Codec.Events.{written, ReadsBack, record-encoded}
use orderbook_replay_lab.Base.Slices.{suc_add}
use orderbook_replay_lab.Replay.Port.{Files}
use orderbook_replay_lab.Replay.Buffered.{Failure}
use orderbook_replay_lab.Replay.Next.{event, next_in}
use orderbook_replay_lab.Replay.Streams.{events_in}
use orderbook_replay_lab.Replay.Record.{next_in-record_of}

-- The records of some events, one behind the other.
unfoldable pub records_of :
    (X : Crates) → SymbolTable → List MarketEvent → Result (CodecError X.Error) Bytes
records_of X t [] = ok []
records_of X t (e ∷ es) = encode_event_bin_record X e t >>= λ record_bytes.
    records_of X t es >>= λ bytes. ok (record_bytes ++ bytes)

module _ (F : Files) (X : Crates) where
  abbrev pub Results : Type 0
  Results = List (Result (Failure F X) MarketEvent)

  -- The bytes of one record after another, and a tail.
  module _ (reads : ReadsBack X) (t : SymbolTable) (v : IsValid t) (trimmed : IsTrimmed t) where
    next_in-encoded :
        (e : MarketEvent) (record_bytes more : Bytes)
        → encode_event_bin_record X e t ≡ ok record_bytes
        → next_in F X (record_bytes ++ more) t ≡ event t e more
    next_in-encoded e record_bytes more written =
        let (payload, whole, small, back) =
          record-encoded X e t record_bytes reads v trimmed written in
        ap (λ bytes. next_in F X (bytes ++ more) t) whole
        ∙ next_in-record_of F X payload more t small (reads.sum_fits payload)
        ∙ rw back refl

    seen_first :
        (calls : ℕ) (e : MarketEvent) (bytes more : Bytes)
        → next_in F X bytes t ≡ event t e more
        → events_in F X (suc calls) bytes t
          ≡ Option.map (λ es. ok e ∷ es) (events_in F X calls more t)
    unfolding events_in
    seen_first calls e bytes more h = rw (events_in, h) refl

    map-map :
        (e : MarketEvent) (es : List MarketEvent) (o : Option Results)
        → Option.map (λ rs. ok e ∷ rs) (Option.map (λ rs. map ok es ++ rs) o)
          ≡ Option.map (λ rs. map ok (e ∷ es) ++ rs) o
    map-map e es none = refl
    map-map e es (some rs) = refl

    map-nil : (o : Option Results) → o ≡ Option.map (λ rs. map ok [] ++ rs) o
    map-nil none = refl
    map-nil (some rs) = refl

    pub events_in-records_of :
        (events : List MarketEvent) (bytes tail : Bytes) (calls : ℕ)
        → records_of X t events ≡ ok bytes
        → events_in F X (length events + calls) (bytes ++ tail) t
          ≡ Option.map (λ rs. map ok events ++ rs) (events_in F X calls tail t)
    unfolding records_of
    events_in-records_of [] bytes tail calls h =
        let count : 0 + calls ≡ calls = omega arith in
        rw (count, sym (ok_inj [] bytes h)) (map-nil (events_in F X calls tail t))
    events_in-records_of (e ∷ es) bytes tail calls h =
        let (record_bytes, first, h') = bind-ok (encode_event_bin_record X e t) _ bytes h in
        let (records, others, h'') = bind-ok (records_of X t es) _ bytes h' in
        let split : bytes ++ tail ≡ record_bytes ++ (records ++ tail) =
          ap (λ bs. bs ++ tail) (sym (ok_inj _ bytes h''))
          ∙ append_assoc record_bytes records tail in
        rw (suc_add (length es) calls, split)
          (seen_first (length es + calls) e (record_bytes ++ (records ++ tail)) (records ++ tail)
              (next_in-encoded e record_bytes (records ++ tail) first)
            ∙ ap (Option.map (λ rs. ok e ∷ rs)) (events_in-records_of es records tail calls others)
            ∙ map-map e es (events_in F X calls tail t))
