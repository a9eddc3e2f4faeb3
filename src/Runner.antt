-- ===== src/Runner.antt =====
-- internal/runner/runner.go: one worker to each queue, runs that span queues, and their final status.
pub mod State
pub mod Grouping
pub mod Enqueue
pub mod Execute
pub mod Control
pub mod Lanes
pub mod System
