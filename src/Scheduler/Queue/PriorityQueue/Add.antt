-- ===== src/Scheduler/Queue/PriorityQueue/Add.antt =====
-- Add of PriorityQueue.
use cloud_prophet.Prelude.{◌≡◌, refl, String, none, string_eq, Returns, returns, value}
use cloud_prophet.Prelude.Int.{ℤ}
use cloud_prophet.Prelude.Map.{lookup-delete}
use cloud_prophet.Scheduler.Pod.{Pod, get_pod_full_name}
use cloud_prophet.Scheduler.Heap.{get_by_key}
use cloud_prophet.Scheduler.Queue.Nominator.Laws
use cloud_prophet.Scheduler.Queue.Unschedulable
use cloud_prophet.Scheduler.Queue.PriorityQueue.{
  PriorityQueue, QueueEnv, add, new_queued_pod_info, delete_unschedulable,
}
use cloud_prophet.Scheduler.Queue.PriorityQueue.Invariant.{
  EnvLaws, IsValid, waiting, put, gone, put-AllNamed, gone-AllNamed, put-Apart,
}
use cloud_prophet.Scheduler.Queue.PriorityQueue.Steps.{
  add_active-bind, delete_backoff-bind, discard-delete,
}

module _ (env : QueueEnv) (Named : Pod → Type 0) (laws : EnvLaws env Named) where
  pub waiting-delete :
      (p : PriorityQueue) (pod : Pod) (n : String)
      → waiting env Named (delete_unschedulable p pod) n
        ≡ gone env Named (get_pod_full_name pod) (waiting env Named p) n
  unfolding delete_unschedulable Unschedulable.delete
  waiting-delete p pod n = lookup-delete (get_pod_full_name pod) n p.unschedulable_q.pod_info_map

  -- Add of a pod with an accepted name puts it in the active queue with the time of the call, takes
  -- it out of the two other queues, and keeps the invariant.
  pub add-IsValid :
      (p : PriorityQueue) (pod : Pod) (now : ℤ) (k : String)
      → IsValid env Named p
      → Named pod
      → env.meta_namespace_key_func pod ≡ value k
      → Returns
          (λ (q, e).
            (e ≡ none)
            × IsValid env Named q
            × ((j : String)
                → get_by_key q.active_q j
                  ≡ put env Named k (new_queued_pod_info now pod) (get_by_key p.active_q) j)
            × ((j : String)
                → get_by_key q.pod_backoff_q j ≡ gone env Named k (get_by_key p.pod_backoff_q) j)
            × ((n : String)
                → waiting env Named q n
                  ≡ gone env Named (get_pod_full_name pod) (waiting env Named p) n))
          (add env p pod now)
  unfolding add new_queued_pod_info
  add-IsValid p pod now k v named e =
      let info = new_queued_pod_info now pod in
      add_active-bind env Named laws p info k _ v.parts e λ h z.
        rw (discard-delete (record p { active_q = h }) pod) (
          delete_backoff-bind env Named laws (delete_unschedulable (record p { active_q = h }) pod)
            info k _ (unfold delete_unschedulable in v.parts.backoff) e
            λ b r vb left. returns (
              refl,
              record {
                parts = record {
                  active = z.valid;
                  backoff = vb;
                  unschedulable = kept;
                  nominated = Laws.add-IsConsistent p.nominator pod "" v.parts.nominated;
                  named_active =
                      put-AllNamed env Named k info _ _ v.parts.named_active named z.stored;
                  named_backoff = gone-AllNamed env Named k _ _ v.parts.named_backoff left;
                  named_waiting =
                      gone-AllNamed env Named _ _ _ v.parts.named_waiting (waiting-delete p pod);
                };
                apart =
                    put-Apart env Named k info _ _ _ _ _ _ v.apart z.stored left
                      (waiting-delete p pod);
              },
              z.stored,
              left,
              waiting-delete p pod,
            ))
    where
      kept : Unschedulable.IsValid (delete_unschedulable p pod).unschedulable_q
      kept =
          unfold delete_unschedulable in
          Unschedulable.delete-IsValid p.unschedulable_q pod v.parts.unschedulable
