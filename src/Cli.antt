-- ===== src/Cli.antt =====
-- cli/src/main.rs.
pub mod Counting
pub mod Simulate
pub mod Timers
pub mod SameBook
pub mod Orders
pub mod Log
pub mod Written
pub mod Gen
pub mod Run
pub mod SameRun
