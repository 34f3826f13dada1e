-- ===== src/Scheduler/Cache.antt =====
-- scheduler/internal/cache.
pub mod NodeTree
pub mod Store
pub mod Nodes
