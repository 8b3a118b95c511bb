-- ===== src/Cli/Gen/Log.antt =====
-- cli/src/main.rs: the log that `run_gen` writes.
use orderbook_replay_lab.Base.{
  ℕ, zero, suc, ◌+◌, ◌≤◌, ◌<◌, ◌≡◌, refl, sym, ap, subst, ◌∙◌, Bool, true, false, some, List, [],
  ◌∷◌, ◌++◌, arith, if◌then◌else◌, length, ℤ, pos, pos_part, ◌≤ℤ◌, half_i64, u64_mod, add_u64,
  nat_eq, Text, text_eq,
}
use orderbook_replay_lab.Base.Result.{ok}
use orderbook_replay_lab.Core.Types.{MarketEvent}
use mathlib.Core.List.{append_assoc, append-nil}
use orderbook_replay_lab.Core.Symbols.{SymbolTable, try_resolve, try_from_symbols}
use orderbook_replay_lab.Codec.Defs.{Bytes, Crates, encode_event_bin_record}
use orderbook_replay_lab.Codec.Frame.{record_of, frame-record_of}
use orderbook_replay_lab.Codec.Events.{symbol_of, written, from_core-written}
use orderbook_replay_lab.Replay.Written.{records_of}
use orderbook_replay_lab.Cli.Log.{bin_log}
use orderbook_replay_lab.Cli.Gen.Defs.{Rng, Writer, write_event, gen_snapshot, gen_events, run_gen}
use orderbook_replay_lab.Cli.Gen.Draws.{Draws, gen_update-Updates, gen_levels-AreLevels}
use orderbook_replay_lab.Cli.Gen.Output.{Stores, IsShort, Serializes, Generated, GeneratedLog}

time_exact : (a b : ℕ) → a + b < u64_mod → add_u64 a b ≡ a + b
unfolding add_u64
time_exact a b h = omega arith

module _ (X : Crates) (t : SymbolTable) (text : Text) (known : try_resolve t 0 ≡ some text)
    (serial : Serializes X text) where
  encode-ok :
      (e : MarketEvent)
      → symbol_of e ≡ 0
      → IsShort e
      → (record_bytes : Bytes) × (encode_event_bin_record X e t ≡ ok record_bytes)
  unfolding encode_event_bin_record
  encode-ok e zero_symbol short =
      let resolved = ap (try_resolve t) zero_symbol ∙ known in
      let payload = serial.payload (written e text) in
      (
        record_of X payload,
        rw (from_core-written X e t text resolved, serial.serializes e short)
            (frame-record_of X payload (serial.fits e short)),
      )

  module _ (W : Writer) (contents : W.File → Bytes) (stores : Stores W contents) (G : Rng) where
    write_event-ok :
        (file : W.File) (e : MarketEvent)
        → symbol_of e ≡ 0
        → IsShort e
        → (record_bytes : Bytes) × (file' : W.File) × (encode_event_bin_record X e t
            ≡ ok record_bytes)
          × (write_event G X W file e bin_log t ≡ ok file')
          × (contents file' ≡ contents file ++ record_bytes)
    unfolding write_event
    write_event-ok file e zero_symbol short =
        let (record_bytes, done) = encode-ok e zero_symbol short in
        (
          record_bytes,
          stores.extended record_bytes file,
          done,
          rw (done, stores.extends record_bytes file) refl,
          stores.appended record_bytes file,
        )

    -- What is written behind a file: the records of some events.
    abbrev Appends : W.File → List MarketEvent → W.File → Type 0
    Appends file events file' =
        (bytes : Bytes) × (records_of X t events ≡ ok bytes)
        × (contents file' ≡ contents file ++ bytes)

    Appends-none : (file : W.File) → Appends file [] file
    unfolding records_of
    Appends-none file = ([], refl, sym (append-nil (contents file)))

    Appends-event :
        (file file' file'' : W.File) (e : MarketEvent) (events : List MarketEvent)
        (record_bytes : Bytes)
        → encode_event_bin_record X e t ≡ ok record_bytes
        → contents file' ≡ contents file ++ record_bytes
        → Appends file' events file''
        → Appends file (e ∷ events) file''
    unfolding records_of
    Appends-event file file' file'' e events record_bytes encoded first (bytes, written_too, more) =
        (
          record_bytes ++ bytes,
          rw (encoded, written_too) refl,
          more ∙ ap (λ bs. bs ++ bytes) first ∙ append_assoc (contents file) record_bytes bytes,
        )

    module _ (draws : Draws G) where
      gen_events-Appends :
          (n idx ts : ℕ) (mid : ℤ) (rng : G.State) (file : W.File)
          → pos 1 ≤ℤ mid
          → pos_part mid + n + 6 < half_i64
          → ts + idx + n < u64_mod
          → (events : List MarketEvent) × (file' : W.File) × (gen_events G X W n idx ts mid rng
                bin_log t file
              ≡ ok file')
            × Appends file events file'
            × (length events ≡ n)
            × Generated (ts + idx) events
      unfolding gen_events
      gen_events-Appends zero idx ts mid rng file one room times =
          ([], file, refl, Appends-none file, refl, tt)
      gen_events-Appends (suc n) idx ts mid rng file one room times =
          let (u, mid', rng', (made, one', near, priced, placed, small, fit)) =
            gen_update-Updates G draws mid rng one (omega arith) in
          let e = MarketEvent.l2_delta (add_u64 ts idx) 0 (u ∷ []) in
          let time : add_u64 ts idx ≡ ts + idx = time_exact ts idx (omega arith) in
          let (record_bytes, file', encoded, done, grown) =
            write_event-ok file e refl (omega (arith, time), omega arith, (fit, tt)) in
          let (events, file'', rest, appends, count, generated) =
            gen_events-Appends n (idx + 1) ts mid' rng' file' one' (omega (arith, near))
              (omega arith) in
          (
            e ∷ events,
            file'',
            rw (made, done) rest,
            Appends-event file file' file'' e events record_bytes encoded grown appends,
            ap suc count,
            (time, refl, priced, small, subst (λ k. Generated k events) (omega arith) generated),
          )

      -- The events behind the snapshot, or all of them.
      after_snapshot :
          (snapshot_first : Bool) (n seed : ℕ) (file : W.File)
          → n + 100_006 < half_i64
          → (ts : ℕ) × (rng : G.State) × (file' : W.File) × (gen_snapshot G X W snapshot_first
                (pos 100_000)
                (G.seed_from_u64 seed)
                bin_log
                t
                file
              ≡ ok (ts, rng, file'))
            × ((events : List MarketEvent) (file'' : W.File)
                → Appends file' events file''
                → Generated ts events
                → (all : List MarketEvent) × Appends file all file''
                  × (length all ≡ length events + (if snapshot_first then 1 else 0))
                  × GeneratedLog snapshot_first all)
            × (ts ≤ 1)
      unfolding gen_snapshot
      after_snapshot false n seed file room = (
        0,
        G.seed_from_u64 seed,
        file,
        refl,
        λ events file'' appends generated. (events, appends, omega arith, generated),
        omega arith,
      )
      after_snapshot true n seed file room =
          let ((bids, asks), rng, made, (b, a, bids_fit, asks_fit)) =
            gen_levels-AreLevels G draws 5 0 (pos 1) (pos 100_000) (G.seed_from_u64 seed) ([], [])
              (omega arith) (omega arith) (omega arith) (refl, refl, tt, tt) in
          let e = MarketEvent.l2_snapshot 0 0 bids asks in
          let (record_bytes, file', encoded, done, grown) =
            write_event-ok file e refl
              (omega arith, omega (arith, b), omega (arith, a), bids_fit, asks_fit) in
          (
            1,
            rng,
            file',
            rw (made, done) refl,
            λ events file'' appends generated. (
              e ∷ events,
              Appends-event file file' file'' e events record_bytes encoded grown appends,
              omega arith,
              (refl, refl, b, a, generated),
            ),
            omega arith,
          )

      -- For a symbol that is accepted, that is, not blank, `gen` of a binary log does not fail, and
      -- writes the records of the events that it makes: a snapshot of five levels a side if one is
      -- asked for, then as many deltas as are asked for, whose times count up by one, each with one
      -- update of a price from 1 and a quantity from 0 to 10. The first id of the symbol's table
      -- resolves; the numbers are drawn in their ranges; the file takes what it is given; the crates
      -- write every event with the symbol that has one update, or five levels a side, and numbers of
      -- 64 bits, in less than 2 ^ 32 bytes; fewer than 2 ^ 63 - 100006 deltas are asked for.
      pub run_gen-GeneratedLog :
          (output : W.Location) (symbol : Text) (n seed : ℕ) (snapshot_first : Bool)
          → try_from_symbols (symbol ∷ []) ≡ ok t
          → n + 100_006 < half_i64
          → (events : List MarketEvent) × (file : W.File) × (run_gen G X W output symbol n seed
                snapshot_first bin_log
              ≡ ok file)
            × (records_of X t events ≡ ok (contents file))
            × (length events ≡ n + (if snapshot_first then 1 else 0))
            × GeneratedLog snapshot_first events
      unfolding run_gen
      run_gen-GeneratedLog output symbol n seed snapshot_first table room =
          let start = stores.created output in
          let (ts, rng, file, front, finish, early) =
            after_snapshot snapshot_first n seed start room in
          let (events, file', rest, appends, count, generated) =
            gen_events-Appends n 0 ts (pos 100_000) rng file (omega arith) (omega arith)
              (omega (arith, early)) in
          let (all, (bytes, written_all, at_end), length_all, whole) =
            finish events file' appends (subst (λ k. Generated k events) (omega arith) generated) in
          (
            all,
            stores.flushed file',
            rw (table, stores.creates output, front, rest, stores.flushes file') refl,
            written_all
                ∙ ap ok (
                    sym
                      (stores.kept file' ∙ at_end ∙ ap (λ bs. bs ++ bytes) (stores.empty output))),
            length_all ∙ ap (λ k. k + (if snapshot_first then 1 else 0)) count,
            whole,
          )
