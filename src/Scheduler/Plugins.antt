-- ===== src/Scheduler/Plugins.antt =====
-- scheduler/framework/plugins: in-tree plugins.
pub mod Filters
pub mod Fitting
pub mod Allocation
pub mod Scores
