-- ===== src/Scheduler.antt =====
-- The scheduler.
pub mod Framework
pub mod Core
pub mod Heap
pub mod Pod
pub mod Node
pub mod NodeInfo
pub mod Cache
pub mod Queue
pub mod Plugins
