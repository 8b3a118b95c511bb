-- ===== src/Portfolio.antt =====
-- portfolio/src/lib.rs.
pub mod Defs
pub mod Position
pub mod Profit
pub mod Reports
pub mod Orders
