-- ===== src/Witnesses.antt =====
-- Runs at concrete inputs, on a database in memory.
pub mod Engine
pub mod Codec
pub mod Tables
pub mod ChangeLog
pub mod Pull
pub mod Sequence
