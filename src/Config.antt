-- ===== src/Config.antt =====
-- 03-error-handling-api-design: typed environment variables.
pub mod VarName
pub mod FromEnv
pub mod Loader
mod Tests
