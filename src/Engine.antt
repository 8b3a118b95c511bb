-- ===== src/Engine.antt =====
-- engine/src/lib.rs.
pub mod Defs
pub mod Book
pub mod Orders
