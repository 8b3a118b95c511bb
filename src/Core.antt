-- ===== src/Core.antt =====
-- core/src/lib.rs: the domain types and the symbol table.
pub mod Text
pub mod Trimming
pub mod Types
pub mod Symbols
pub mod Interning
pub mod Tables
