-- ===== src/Scheduler/Framework.antt =====
-- scheduler/framework: the plugins' results and the runs over the configured plugins.
pub mod Status
pub mod WaitingPods
pub mod Plugins
pub mod Runtime
pub mod Binding
pub mod Permit
pub mod Scoring
pub mod Setup
