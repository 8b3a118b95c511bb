-- ===== src/Lib.antt =====
-- Verification of the order book replay lab.
--
-- The program replays logs of level-2 market events. An event updates the order book of one symbol;
-- the engine lets the venue fill resting orders at the new prices, asks a strategy for intents,
-- passes each intent through the risk policies and the order management system to the venue, and
-- gives the venue's reports to the order management system, the portfolio and the strategy, whose
-- new intents join the queue. The command line runs the book alone (replay) or the engine (simulate).
--
-- The files and the sources that they model:
--   Base           the native numbers with Rust's machine integers over them (two's complement i64 and
--                  i128 that wrap, u64 with its saturating operations), lists, hash maps as
--                  association lists, Result; no source file of its own
--   Core           core/src/lib.rs: SymbolTable, Price, Qty, Side, MarketEvent (Text: the string
--                  operations, Symbols: the table; Interning, Trimming and Tables have theorems)
--   Trading        trading-types/src/lib.rs: intents, requests, reports
--   Api            strategy-api/src/lib.rs: ContextSnapshot::new and the trait Strategy
--   Book           orderbook/src/lib.rs: OrderBook; the two B-tree maps are sorted lists (Levels,
--                  Sorted), apply is Defs.apply; Refinement gives the book as a function from side and
--                  price to quantity
--   Oms            oms/src/lib.rs: Oms, apply_intent and on_execution_report; Runs has histories of
--                  calls
--   Risk           risk/src/lib.rs: RiskEngine::evaluate over the trait RiskPolicy and its three
--                  implementors (Defs); a policy's cells are passed on; Limits and Chain have theorems
--   Portfolio      portfolio/src/lib.rs: on_execution_report is Defs.on_execution_report, whose
--                  arithmetic on one position is fill_position; mark_to_mid and the read functions
--   Venue          venue/src/lib.rs (Port) and venue-sim/src/lib.rs (Sim): submit and on_book_update
--                  append to the vector that they are given
--   Strategies     strategies/src/lib.rs: Twap for TwapStrategy and NoopStrategy, Mm for MmStrategy
--   Metrics        metrics/src/lib.rs: LatencyStats over the histogram crate as a parameter, and
--                  ThroughputTracker over times that are arguments
--   Engine         engine/src/lib.rs: on_market_event, on_timer and handle_intent_queue, over the risk
--                  policies, the strategy, the venue and the histogram as parameters (Defs); Book and
--                  Orders have theorems
--   Cli            cli/src/main.rs: CountingVenue (Counting), run_replay (Log) and run_simulate (Run) over
--                  a reader, their loops over what a reader returns (Simulate), run_gen and write_event
--                  over a random number generator and an output file as the parameters Rng and Writer
--                  (Gen.Defs); Timers, Orders, SameBook, SameRun, Written, Gen.Draws, Gen.Log and
--                  Gen.Replay have theorems
--   Codec          codec/src/lib.rs: the JSON lines and the binary records, with serde_json, bincode
--                  and crc32fast as the parameter Crates (Defs); the record around a payload
--                  (Frame), an event through a record (Events)
--   Replay         replay/src/lib.rs: Buffered for ReplayReader and Mapped for MmapReplayReader, over
--                  the file system as the parameter Files (Port); Next is what is next in the bytes
--                  of a log, Streams the loop over a reader; Ends, Record, Written and Logs have
--                  theorems on whole logs
--   Tests          the theorems at concrete inputs
--
-- How the code is modelled. A call on a mutable object takes its state and returns the state
-- afterwards; an output vector is a list that is passed on. The engine and the venue share one book:
-- it is a field of the engine, and each call of the venue takes it and returns it as it is afterwards,
-- so that a venue may write to it. Plain arithmetic on machine integers wraps, as in a release build;
-- theorems that need exact arithmetic say which numbers must fit. An assertion for debug builds is not
-- modelled. Texts are lists of code points. A hash map's order is never used but in the venue's scan,
-- which sorts the ids.
--
-- The crates, the file system, the output file and the random numbers are parameters. Where a theorem
-- relies on what they do, a record of laws says it: Replay.Fill.Serves for reading a file,
-- Codec.Events.ReadsBack for the crates, Cli.Gen.Output.Stores and Serializes for writing,
-- Cli.Gen.Draws.Draws for the random numbers. Venue.Port.ReadsBook says that a venue leaves the shared
-- book as it was; the simulated venue and CountingVenue over it satisfy that. The tests have an
-- instance of each.
--
-- Bounds and fuel. The bounds are the program's own: 1024 passive fills for one book update, 1024
-- intents for one event and 1024 timer ticks before one event. Each is a number that counts down, so
-- the loops are total, and what happens at the bound is what the code does there. The loop that fills a
-- buffer from a file has as many rounds as bytes are wanted, which is enough since each round reads a
-- byte at least or is the last. The loop over a log has a number of calls, after which the model
-- says that the reader has not ended; theorems say how many calls are enough.
--
-- Not modelled: the argument parser of cli/src/main.rs, the measurement of throughput in its loops and
-- its printed lines, of which the printed values are kept; the summary text of metrics/src/lib.rs; the
-- build of the codec without its feature bin; tests and benchmarks.
pub mod Base
pub mod Core
pub mod Trading
pub mod Api
pub mod Book
pub mod Oms
pub mod Risk
pub mod Portfolio
pub mod Venue
pub mod Strategies
pub mod Metrics
pub mod Engine
pub mod Cli
pub mod Codec
pub mod Replay
pub mod Tests
