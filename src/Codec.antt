-- ===== src/Codec.antt =====
-- codec/src/lib.rs.
pub mod Defs
pub mod Frame
pub mod Events
