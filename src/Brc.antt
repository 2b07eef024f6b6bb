-- ===== src/Brc.antt =====
-- 08-performance: the aggregation of temperatures by station.
pub mod Parse
pub mod FxHash
pub mod Stats
pub mod Runner
pub mod Bounds
mod Tests
