-- ===== src/Cli/Gen.antt =====
-- cli/src/main.rs: the generator.
pub mod Defs
pub mod Draws
pub mod Fits
pub mod Log
pub mod Output
pub mod Replay
