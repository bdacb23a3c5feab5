-- ===== src/Admin.antt =====
-- The administration tools (src/main/python/apache/aurora/admin).
pub mod Maintenance
