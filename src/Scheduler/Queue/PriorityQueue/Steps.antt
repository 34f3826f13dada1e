-- ===== src/Scheduler/Queue/PriorityQueue/Steps.antt =====
-- The moves of one pod between the queues of PriorityQueue, as rules for what follows them.
use cloud_prophet.Prelude.{
  ◌≡◌, sym, ◌∙◌, String, Option, none, some, string_eq, Run, ◌>>=◌, Returns, Returns-inv, value,
  Option-cases, inl, inr,
}
use cloud_prophet.Prelude.Map.{lookup, delete-absent}
use cloud_prophet.Scheduler.Pod.{Pod, QueuedPodInfo, get_pod_full_name}
use cloud_prophet.Scheduler.Heap.{Heap, HeapError, get_by_key}
use cloud_prophet.Scheduler.Heap.Spec
use cloud_prophet.Scheduler.Queue.Backoff.{
  pods_compare_backoff_completed, pods_compare_backoff_completed-IsStrictWeak,
}
use cloud_prophet.Scheduler.Queue.Unschedulable
use cloud_prophet.Scheduler.Queue.PriorityQueue.{
  PriorityQueue, QueueEnv, pod_info_key_func, add_active, add_backoff, delete_backoff,
  delete_unschedulable, discard_unschedulable,
}
use cloud_prophet.Scheduler.Queue.PriorityQueue.Invariant.{EnvLaws, Parts, gone}

module _ (env : QueueEnv) (Named : Pod → Type 0) (laws : EnvLaws env Named) where
  pub add_active-bind {κ} :
      {B : Type 0} {Q : B → Type κ} (p : PriorityQueue) (info : QueuedPodInfo) (k : String)
      (f : PriorityQueue × Option (HeapError QueuedPodInfo) → Run B)
      → Parts env Named p
      → pod_info_key_func env info ≡ value k
      → ((h : Heap QueuedPodInfo)
          → Spec.Added (pod_info_key_func env) env.less p.active_q k info h
          → Returns Q (f (record p { active_q = h }, none)))
      → Returns Q (add_active env p info >>= f)
  unfolding add_active
  add_active-bind p info k f v e rest =
      let ((h, r), ran, (n, z)) = Returns-inv (
        Spec.add-Added (pod_info_key_func env) env.less (laws.ordered) p.active_q info k (v.active)
          e) in
      rw ran (rw n (rest h z))

  pub add_backoff-bind {κ} :
      {B : Type 0} {Q : B → Type κ} (p : PriorityQueue) (info : QueuedPodInfo) (k : String)
      (f : PriorityQueue × Option (HeapError QueuedPodInfo) → Run B)
      → Parts env Named p
      → pod_info_key_func env info ≡ value k
      → ((h : Heap QueuedPodInfo)
          → Spec.Added
              (pod_info_key_func env)
              (pods_compare_backoff_completed p.config)
              p.pod_backoff_q
              k
              info
              h
          → Returns Q (f (record p { pod_backoff_q = h }, none)))
      → Returns Q (add_backoff env p info >>= f)
  unfolding add_backoff
  add_backoff-bind p info k f v e rest =
      let ((h, r), ran, (n, z)) = Returns-inv (
        Spec.add-Added (pod_info_key_func env) (pods_compare_backoff_completed p.config)
          (pods_compare_backoff_completed-IsStrictWeak p.config) p.pod_backoff_q info k (v.backoff)
          e) in
      rw ran (rw n (rest h z))

  pub delete_backoff-bind {κ} :
      {B : Type 0} {Q : B → Type κ} (p : PriorityQueue) (info : QueuedPodInfo) (k : String)
      (f : PriorityQueue × Option (HeapError QueuedPodInfo) → Run B)
      → Spec.IsValid
          (pod_info_key_func env)
          (pods_compare_backoff_completed p.config)
          p.pod_backoff_q
      → pod_info_key_func env info ≡ value k
      → ((h : Heap QueuedPodInfo) (r : Option (HeapError QueuedPodInfo))
          → Spec.IsValid (pod_info_key_func env) (pods_compare_backoff_completed p.config) h
          → ((j : String) → get_by_key h j ≡ gone env Named k (get_by_key p.pod_backoff_q) j)
          → Returns Q (f (record p { pod_backoff_q = h }, r)))
      → Returns Q (delete_backoff env p info >>= f)
  unfolding delete_backoff
  delete_backoff-bind p info k f v e rest =
      let ((h, r), ran, (valid, left)) = Returns-inv (
        Spec.delete_any (pod_info_key_func env) (pods_compare_backoff_completed p.config)
          (pods_compare_backoff_completed-IsStrictWeak p.config) p.pod_backoff_q info k v e) in
      rw ran (rest h r valid left)

abbrev waiting_at : PriorityQueue → Pod → Option QueuedPodInfo
waiting_at p pod = lookup (get_pod_full_name pod) p.unschedulable_q.pod_info_map

discard-present :
    (p : PriorityQueue) (pod : Pod) (old : QueuedPodInfo)
    → waiting_at p pod ≡ some old
    → discard_unschedulable p pod ≡ delete_unschedulable p pod
unfolding discard_unschedulable Unschedulable.get
discard-present p pod old e = rw (e, discard_unschedulable)

discard-absent :
    (p : PriorityQueue) (pod : Pod) → waiting_at p pod ≡ none → discard_unschedulable p pod ≡ p
unfolding discard_unschedulable Unschedulable.get
discard-absent p pod e = rw (e, discard_unschedulable)

delete-nothing :
    (p : PriorityQueue) (pod : Pod) → waiting_at p pod ≡ none → delete_unschedulable p pod ≡ p
unfolding delete_unschedulable Unschedulable.delete
delete-nothing p pod e = rw (
  e,
  delete_unschedulable,
  delete-absent (get_pod_full_name pod) p.unschedulable_q.pod_info_map e,
)

-- To discard a pod that may be absent is to delete it.
pub discard-delete :
    (p : PriorityQueue) (pod : Pod) → discard_unschedulable p pod ≡ delete_unschedulable p pod
discard-delete p pod = elim (Option-cases (waiting_at p pod)) [
  | inl absent ↦ discard-absent p pod absent ∙ sym (delete-nothing p pod absent)
  | inr (old, there) ↦ discard-present p pod old there
]
