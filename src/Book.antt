-- ===== src/Book.antt =====
-- orderbook/src/lib.rs.
pub mod Levels
pub mod Defs
pub mod Sorted
pub mod Invariant
pub mod Refinement
pub mod Best
pub mod Effects
pub mod Symbols
