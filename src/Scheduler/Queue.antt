-- ===== src/Scheduler/Queue.antt =====
-- scheduler/internal/queue/scheduling_queue.go.
pub mod Backoff
pub mod PrioritySort
pub mod Unschedulable
pub mod PriorityQueue
pub mod Nominator
