-- ===== src/Strategies.antt =====
-- strategies/src/lib.rs.
pub mod Twap
pub mod Mm
pub mod MmQuotes
pub mod TwapProgress
pub mod TwapOrders
