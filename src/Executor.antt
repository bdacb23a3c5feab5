-- ===== src/Executor.antt =====
-- The Aurora executor (src/main/python/apache/aurora/executor): status checkers and health checks.
pub mod Status
pub mod StatusManager
pub mod Health
