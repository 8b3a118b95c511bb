-- ===== src/Risk.antt =====
-- risk/src/lib.rs.
pub mod Defs
pub mod Limits
pub mod Chain
