-- ===== src/Cli/Gen/Output.antt =====
-- cli/src/main.rs: what `run_gen` relies on of the output file and of the crates, and the events of
-- its log.
use orderbook_replay_lab.Base.{
  ℕ, ◌+◌, ◌^◌, ◌≤◌, ◌<◌, ◌≡◌, Bool, true, false, List, [], ◌∷◌, ◌++◌, length, u64_mod, nat_eq, Text,
  text_eq, All,
}
use orderbook_replay_lab.Base.Result.{ok}
use orderbook_replay_lab.Core.Types.{MarketEvent}
use orderbook_replay_lab.Codec.Defs.{Bytes, Crates, WireEvent}
use orderbook_replay_lab.Codec.Events.{written}
use orderbook_replay_lab.Cli.Gen.Defs.{Writer}
use orderbook_replay_lab.Cli.Gen.Draws.{IsPriced, IsSmallQty}
use orderbook_replay_lab.Cli.Gen.Fits.{LevelFits, UpdateFits}

-- A file that takes what it is given: `contents` is what has been written.
pub record Stores (W : Writer) (contents : W.File → Bytes) : Type 0 where
  pub created : W.Location → W.File
  pub creates : (path : W.Location) → W.create path ≡ ok (created path)
  pub empty : (path : W.Location) → contents (created path) ≡ []
  pub extended : Bytes → W.File → W.File
  pub extends : (bytes : Bytes) (f : W.File) → W.write_all bytes f ≡ ok (extended bytes f)
  pub appended : (bytes : Bytes) (f : W.File) → contents (extended bytes f) ≡ contents f ++ bytes
  pub flushed : W.File → W.File
  pub flushes : (f : W.File) → W.flush f ≡ ok (flushed f)
  pub kept : (f : W.File) → contents (flushed f) ≡ contents f

-- An event with one update at most, or five levels on each side at most, whose numbers are those of
-- the machine: the time of 64 bits, the prices and quantities of 64 bits with a sign.
abbrev pub IsShort : MarketEvent → Type 0
IsShort (MarketEvent.l2_delta ts_ns symbol updates) =
    (ts_ns < u64_mod) × (length updates ≤ 1) × All UpdateFits updates
IsShort (MarketEvent.l2_snapshot ts_ns symbol bids asks) =
    (ts_ns < u64_mod)
    × (length bids ≤ 5)
    × (length asks ≤ 5)
    × All LevelFits bids
    × All LevelFits asks

-- The crates write every short event with this symbol, in a payload of less than 2 ^ 32 bytes, each
-- of eight bits.
pub record Serializes (X : Crates) (text : Text) : Type 0 where
  pub payload : WireEvent → Bytes
  pub serializes :
      (e : MarketEvent) → IsShort e → X.serialize (written e text) ≡ ok (payload (written e text))
  pub fits : (e : MarketEvent) → IsShort e → length (payload (written e text)) < 2 ^ 32
  pub are_bytes : (e : MarketEvent) → IsShort e → All (λ b. b < 256) (payload (written e text))

-- Generated deltas: their times count up from `ts`, and each has one update, of a price from 1 and a
-- quantity from 0 to 10.
abbrev pub Generated : ℕ → List MarketEvent → Type 0
Generated ts [] = Unit
Generated ts (MarketEvent.l2_delta ts_ns symbol (u ∷ []) ∷ events) =
    (ts_ns ≡ ts) × (symbol ≡ 0) × IsPriced u.price × IsSmallQty u.qty × Generated (ts + 1) events
Generated ts (e ∷ events) = ⊥

-- The events of a whole log, with or without a snapshot in front.
abbrev pub GeneratedLog : Bool → List MarketEvent → Type 0
GeneratedLog false events = Generated 0 events
GeneratedLog true (MarketEvent.l2_snapshot ts_ns symbol bids asks ∷ events) =
    (ts_ns ≡ 0) × (symbol ≡ 0) × (length bids ≡ 5) × (length asks ≡ 5) × Generated 1 events
GeneratedLog true events = ⊥
