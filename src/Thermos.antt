-- ===== src/Thermos.antt =====
-- The Thermos side of the program: planners, checkpoints (apache/thermos).
pub mod Planner
pub mod TaskPlanner
pub mod Ckpt
pub mod Runner
pub mod Helper
pub mod Muxer
pub mod RotatingLog
