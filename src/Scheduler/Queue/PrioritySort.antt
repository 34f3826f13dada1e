-- ===== src/Scheduler/Queue/PrioritySort.antt =====
-- scheduler/framework/plugins/queuesort/priority_sort.go: the order of the active queue.
use cloud_prophet.Prelude.{◌≡◌, Bool, ◌&&◌, ◌||◌, arith}
use cloud_prophet.Prelude.Int.{ltb_ℤ, eqb_ℤ}
use cloud_prophet.Scheduler.Pod.{QueuedPodInfo, get_pod_priority}
use cloud_prophet.Scheduler.Heap.Storage.Laws.{IsStrictWeak}

unfoldable pub less : QueuedPodInfo → QueuedPodInfo → Bool
less a b =
    let p1 = get_pod_priority a.pod in
    let p2 = get_pod_priority b.pod in ltb_ℤ p2 p1 || (eqb_ℤ p1 p2 && ltb_ℤ a.timestamp b.timestamp)

-- Less is a strict weak order, so that the active queue is a heap.
pub less-IsStrictWeak : IsStrictWeak less
unfolding less
less-IsStrictWeak = record { asym = λ a b e. ground arith; trans = λ a b c d e. ground arith }

-- GetPodPriority is the same for all pods, so Less compares the times alone: the older entry first.
pub less-timestamp : (a b : QueuedPodInfo) → less a b ≡ ltb_ℤ a.timestamp b.timestamp
unfolding less get_pod_priority
less-timestamp a b = ground arith
