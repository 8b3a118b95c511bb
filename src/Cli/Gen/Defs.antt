-- ===== src/Cli/Gen/Defs.antt =====
-- cli/src/main.rs: `run_gen`, which writes a log of random events, and `write_event`. The random
-- numbers, the output file and the codec's crates are parameters.
use orderbook_replay_lab.Base.{
  ℕ, zero, suc, ◌+◌, Bool, true, false, List, [], ◌∷◌, ◌++◌, ℤ, pos, negsuc, max_ℤ, add_i64,
  sub_i64, add_u64, nat_eq, Text, text_eq,
}
use orderbook_replay_lab.Base.Result.{Result, ok, ◌>>=◌, map_err}
use orderbook_replay_lab.Core.Types.{
  CoreError, Side, Price, Qty, new_price, new_qty, LevelUpdate, MarketEvent,
}
use orderbook_replay_lab.Base.{max_ℤ}
use orderbook_replay_lab.Core.Symbols.{SymbolTable, try_from_symbols}
use orderbook_replay_lab.Codec.Defs.{
  Bytes, CodecError, Crates, encode_event_json_line, encode_event_bin_record,
}
use orderbook_replay_lab.Cli.Log.{LogFormat}

-- What the code calls of the crate `rand`; a probability is given in tenths.
pub record Rng : Type 1 where
  pub State : Type 0
  pub seed_from_u64 : ℕ → State
  pub gen_range : (low high : ℤ) → State → ℤ × State
  pub gen_bool : (tenths : ℕ) → State → Bool × State

-- `File::create` under a `BufWriter`, `write_all`, `writeln!` of a line, and `flush`.
pub record Writer : Type 1 where
  pub IoError : Type 0
  pub Location : Type 0
  pub File : Type 0
  pub create : Location → Result IoError File
  pub write_all : Bytes → File → Result IoError File
  pub write_line : Text → File → Result IoError File
  pub flush : File → Result IoError File

-- The boxed errors of the command line.
pub data GenError (I E : Type 0) : Type 0 where
  io : I → GenError I E
  core : CoreError → GenError I E
  codec : CodecError E → GenError I E

abbrev pub gen_seed_default : ℕ
gen_seed_default = 42

-- One level on each side, for `for level in 1..=5`.
abbrev pub Sides : Type 0
Sides = List (Price × Qty) × List (Price × Qty)

module _ (G : Rng) where
  -- `levels` are left, and the next is `level`.
  unfoldable pub gen_levels : ℕ → ℤ → ℤ → G.State → Sides → Result CoreError (Sides × G.State)
  gen_levels zero level mid rng sides = ok (sides, rng)
  gen_levels (suc levels) level mid rng (bids, asks) =
      let bid_price = max_ℤ (sub_i64 mid level) (pos 1) in
      let ask_price = add_i64 mid level in
      let (bid_qty, rng1) = G.gen_range (pos 1) (pos 10) rng in
      let (ask_qty, rng2) = G.gen_range (pos 1) (pos 10) rng1 in
      new_price bid_price >>= λ bp. new_qty bid_qty >>= λ bq. new_price ask_price >>= λ ap.
      new_qty ask_qty >>= λ aq.
      gen_levels levels (add_i64 level (pos 1)) mid rng2
        (bids ++ (bp, bq) ∷ [], asks ++ (ap, aq) ∷ [])

  abbrev pub gen_side : Bool → Side
  gen_side true = Side.bid
  gen_side false = Side.ask

  abbrev pub gen_price : Side → ℤ → ℤ → ℤ
  gen_price Side.bid mid offset = max_ℤ (sub_i64 mid offset) (pos 1)
  gen_price Side.ask mid offset = add_i64 mid offset

  abbrev pub gen_qty : Bool → G.State → ℤ × G.State
  gen_qty true rng = (pos 0, rng)
  gen_qty false rng = G.gen_range (pos 1) (pos 10) rng

  -- The update of one round, the middle price and the random numbers afterwards.
  unfoldable pub gen_update : ℤ → G.State → Result CoreError (LevelUpdate × ℤ × G.State)
  gen_update mid rng =
      let (drift, rng1) = G.gen_range (negsuc 0) (pos 1) rng in
      let mid' = max_ℤ (add_i64 mid drift) (pos 1) in
      let (bid, rng2) = G.gen_bool 5 rng1 in
      let side = gen_side bid in
      let (offset, rng3) = G.gen_range (pos 1) (pos 5) rng2 in
      let (remove, rng4) = G.gen_bool 1 rng3 in
      let (qty_lots, rng5) = gen_qty remove rng4 in
      new_price (gen_price side mid' offset) >>= λ price.
      new_qty qty_lots >>= λ qty. ok (record { side = side; price = price; qty = qty }, mid', rng5)

  module _ (X : Crates) (W : Writer) where
    abbrev pub Failure : Type 0
    Failure = GenError W.IoError X.Error

    unfoldable pub write_event :
        W.File → MarketEvent → LogFormat → SymbolTable → Result Failure W.File
    write_event file event LogFormat.jsonl_log symbols =
        map_err GenError.codec (encode_event_json_line X event symbols) >>= λ line.
        map_err GenError.io (W.write_line line file)
    write_event file event LogFormat.bin_log symbols =
        map_err GenError.codec (encode_event_bin_record X event symbols) >>= λ record_bytes.
        map_err GenError.io (W.write_all record_bytes file)

    -- The snapshot before the events, with the time of the first event.
    unfoldable pub gen_snapshot :
        Bool
        → ℤ
        → G.State
        → LogFormat
        → SymbolTable
        → W.File
        → Result Failure (ℕ × G.State × W.File)
    gen_snapshot false mid rng format symbols file = ok (0, rng, file)
    gen_snapshot true mid rng format symbols file =
        map_err GenError.core (gen_levels 5 (pos 1) mid rng ([], [])) >>= λ r.
        write_event file (MarketEvent.l2_snapshot 0 0 r.0.0 r.0.1) format symbols >>= λ file'.
        ok (1, r.1, file')

    -- `for idx in 0..events`: `events` are left, and the next is `idx`.
    unfoldable pub gen_events :
        ℕ → ℕ → ℕ → ℤ → G.State → LogFormat → SymbolTable → W.File → Result Failure W.File
    gen_events zero idx ts_ns mid rng format symbols file = ok file
    gen_events (suc events) idx ts_ns mid rng format symbols file =
        map_err GenError.core (gen_update mid rng) >>= λ r.
        write_event file (MarketEvent.l2_delta (add_u64 ts_ns idx) 0 (r.0 ∷ [])) format symbols
        >>= λ file'. gen_events events (idx + 1) ts_ns r.1 r.2 format symbols file'

    unfoldable pub run_gen : W.Location → Text → ℕ → ℕ → Bool → LogFormat → Result Failure W.File
    run_gen output symbol events seed snapshot_first format =
        map_err GenError.core (try_from_symbols (symbol ∷ [])) >>= λ symbols.
        map_err GenError.io (W.create output) >>= λ file.
        gen_snapshot snapshot_first (pos 100_000) (G.seed_from_u64 seed) format symbols file
        >>= λ r. gen_events events 0 r.0 (pos 100_000) r.1 format symbols r.2 >>= λ file'.
            map_err GenError.io (W.flush file')
