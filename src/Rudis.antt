-- ===== src/Rudis.antt =====
-- 07-systems-programming: the in-memory key-value server `rudis`.
pub mod Store
pub mod Resp
pub mod Command
pub mod Persistence
pub mod Connection
mod Tests
mod WireTests
mod CommandTests
mod SnapshotTests
