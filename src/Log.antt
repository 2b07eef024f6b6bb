-- ===== src/Log.antt =====
-- 04-concurrency: a log analyzer, in one thread and in several.
pub mod Lossy
pub mod Parser
pub mod Stats
pub mod Runner
pub mod Pipeline
mod Tests
