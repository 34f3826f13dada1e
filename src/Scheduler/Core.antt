-- ===== src/Scheduler/Core.antt =====
-- scheduler/core/generic_scheduler.go.
pub mod Scores
pub mod Sums
pub mod Selection
pub mod Filtering
pub mod Schedule
