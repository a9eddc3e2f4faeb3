-- ===== src/Scheduler.antt =====
-- The scheduler of internal/scheduler.
pub mod Overlap
pub mod Fire
pub mod Reload
