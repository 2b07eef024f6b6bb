-- ===== src/Scan.antt =====
-- 05-async-tokio: the targets of the port scanner.
pub mod Target
mod Tests
