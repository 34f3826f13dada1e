-- ===== src/Tests.antt =====
-- Concrete runs of the scheduler's structures.
mod HeapTests
mod QueueTests
mod TreeTests
mod CacheTests
mod FrameworkTests
mod CoreTests
mod PluginTests
