-- ===== src/Scheduler/Queue/PriorityQueue/ParkAll.antt =====
-- The branches of AddUnschedulableIfNotPresent together.
use cloud_prophet.Prelude.{
  ◌≡◌, refl, inl, inr, String, Option, none, some, Returns, returns, Returns-map, value,
  Option-cases,
}
use cloud_prophet.Prelude.Int.{ℤ}
use cloud_prophet.Scheduler.Pod.{Pod, QueuedPodInfo, get_pod_full_name}
use cloud_prophet.Scheduler.Heap.{get, get_by_key}
use cloud_prophet.Scheduler.Queue.Unschedulable
use cloud_prophet.Scheduler.Queue.PriorityQueue.{
  PriorityQueue, QueueEnv, QueueError, already_unschedulable, already_active, already_backing_off,
  in_active, in_backoff, add_unschedulable_if_not_present,
}
use cloud_prophet.Scheduler.Queue.PriorityQueue.Invariant.{EnvLaws, IsValid, waiting}
use cloud_prophet.Scheduler.Queue.PriorityQueue.Park.{Parked, park-Parked}

module _ (env : QueueEnv) (p : PriorityQueue) (info : QueuedPodInfo) (k : String)
    (e : env.meta_namespace_key_func info.pod ≡ value k) where
  in_active-value : in_active env p info ≡ get_by_key p.active_q k
  unfolding get get_by_key
  in_active-value = rw (e, get)

  in_backoff-value : in_backoff env p info ≡ get_by_key p.pod_backoff_q k
  unfolding get get_by_key
  in_backoff-value = rw (e, get)

module _ (env : QueueEnv) (Named : Pod → Type 0) (laws : EnvLaws env Named) (p : PriorityQueue)
    (info : QueuedPodInfo) (k : String) (now : ℤ) (v : IsValid env Named p) (named : Named info.pod)
    (e : env.meta_namespace_key_func info.pod ≡ value k) where
  abbrev fresh : QueuedPodInfo
  fresh = record info { timestamp = now }

  -- A pod that is in one of the queues is refused, with nothing changed; any other is parked with
  -- the time of the call.
  pub data Outcome (cycle : ℤ) (q : PriorityQueue) (r : Option QueueError) : Type 0 where
    refused_unschedulable :
        (a : QueuedPodInfo)
        → waiting env Named p (get_pod_full_name info.pod) ≡ some a
        → q ≡ p
        → r ≡ some already_unschedulable
        → Outcome cycle q r
    refused_active :
        (a : QueuedPodInfo)
        → get_by_key p.active_q k ≡ some a
        → q ≡ p
        → r ≡ some already_active
        → Outcome cycle q r
    refused_backoff :
        (a : QueuedPodInfo)
        → get_by_key p.pod_backoff_q k ≡ some a
        → q ≡ p
        → r ≡ some already_backing_off
        → Outcome cycle q r
    parked : r ≡ none → Parked env Named laws p fresh k v named e cycle q → Outcome cycle q r

  -- AddUnschedulableIfNotPresent refuses a pod that is in one of the three queues and parks any
  -- other, and in each case returns.
  pub add_unschedulable-Outcome :
      (cycle : ℤ)
      → Returns
          (λ (q, r). Outcome cycle q r)
          (add_unschedulable_if_not_present env p info cycle now)
  unfolding add_unschedulable_if_not_present Unschedulable.get
  add_unschedulable-Outcome cycle =
      elim (Option-cases (waiting env Named p (get_pod_full_name info.pod))) [
        | inr (a, there) ↦
            rw (there, add_unschedulable_if_not_present)
              (returns (refused_unschedulable a there refl refl))
        | inl no_wait ↦
            rw (no_wait, in_active-value env p fresh k e, add_unschedulable_if_not_present)
              (elim (Option-cases (get_by_key p.active_q k)) [
                | inr (a, there) ↦
                    rw (there, add_unschedulable_if_not_present)
                      (returns (refused_active a there refl refl))
                | inl no_active ↦
                    rw
                      (
                        no_active,
                        in_backoff-value env p fresh k e,
                        add_unschedulable_if_not_present,
                      )
                      (elim (Option-cases (get_by_key p.pod_backoff_q k)) [
                        | inr (a, there) ↦
                            rw (there, add_unschedulable_if_not_present)
                              (returns (refused_backoff a there refl refl))
                        | inl no_backoff ↦
                            rw (no_backoff, add_unschedulable_if_not_present)
                              (Returns-map
                                (park-Parked env Named laws p fresh k v named e no_active no_backoff
                                  no_wait cycle)
                                λ (q, r) (n, z). parked n z)
                      ])
              ])
      ]
