-- ===== src/Tests.antt =====
-- Concrete runs of the models: each applies a theorem of a component to one input.
mod Books
mod Wire
mod Generated
mod Logs
mod Orders
mod Positions
mod Venues
mod Trades
mod Records
mod Runs
