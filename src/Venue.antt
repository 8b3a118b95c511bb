-- ===== src/Venue.antt =====
-- venue/src/lib.rs and venue-sim/src/lib.rs.
pub mod Port
pub mod Sim
pub mod Scan
pub mod Emits
pub mod Passive
pub mod Submit
