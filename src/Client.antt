-- ===== src/Client.antt =====
-- The Aurora client (src/main/python/apache/aurora/client/api).
pub mod Updater
pub mod Watcher
pub mod Restarter
pub mod Monitor
pub mod Grouping
pub mod Sla
pub mod Scheduler
