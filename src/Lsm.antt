-- ===== src/Lsm.antt =====
-- 10-database-internals: the log-structured key-value store `lsmkv`.
pub mod Result
pub mod Encoding
pub mod Crc
pub mod Wal
mod Tests
mod StoreTests
mod CrashTests
pub mod MemTable
pub mod Merge
pub mod SsTable
pub mod Db
