-- ===== src/Oms.antt =====
-- oms/src/lib.rs.
pub mod Defs
pub mod Invariant
pub mod Runs
pub mod Reports
