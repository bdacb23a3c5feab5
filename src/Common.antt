-- ===== src/Common.antt =====
-- What the client and the executor share (src/main/python/apache/aurora/common).
pub mod JobKey
pub mod PortResolver
