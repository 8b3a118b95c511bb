-- ===== src/Replay.antt =====
-- replay/src/lib.rs: the two readers of an event log.
pub mod Port
pub mod Buffered
pub mod Mapped
pub mod Fill
pub mod Next
pub mod MappedNext
pub mod BufferedNext
pub mod Streams
pub mod Agree
pub mod Ends
pub mod Record
pub mod Written
pub mod Logs
