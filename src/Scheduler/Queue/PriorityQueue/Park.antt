-- ===== src/Scheduler/Queue/PriorityQueue/Park.antt =====
-- AddUnschedulableIfNotPresent of PriorityQueue.
use cloud_prophet.Prelude.{
  ◌≡◌, ◌≢◌, refl, ap, inl, inr, String, Option, none, some, if◌then◌else◌, string_eq, Returns,
  returns, value, Bool-cases,
}
use cloud_prophet.Prelude.Int.{ℤ, leb_ℤ}
use cloud_prophet.Prelude.Map.{lookup-insert}
use cloud_prophet.Scheduler.Pod.{Pod, QueuedPodInfo, get_pod_full_name}
use cloud_prophet.Scheduler.Heap.{get_by_key}
use cloud_prophet.Scheduler.Heap.Spec
use cloud_prophet.Scheduler.Queue.Backoff.{pods_compare_backoff_completed}
use cloud_prophet.Scheduler.Queue.Nominator.Laws
use cloud_prophet.Scheduler.Queue.Unschedulable
use cloud_prophet.Scheduler.Queue.PriorityQueue.{PriorityQueue, QueueEnv, pod_info_key_func, park}
use cloud_prophet.Scheduler.Queue.PriorityQueue.Invariant.{
  EnvLaws, IsValid, waiting, put, put-AllNamed, put-Apart, park-Apart, swap-Apart, absent-gone,
}
use cloud_prophet.Scheduler.Queue.PriorityQueue.Steps.{add_backoff-bind}

module _ (env : QueueEnv) (Named : Pod → Type 0) (laws : EnvLaws env Named) (p : PriorityQueue)
    (info : QueuedPodInfo) (k : String) (v : IsValid env Named p) (named : Named info.pod)
    (e : env.meta_namespace_key_func info.pod ≡ value k) where
  -- The pod goes to the backoff queue after a move request, and else to the unschedulable queue.
  pub record Parked (cycle : ℤ) (q : PriorityQueue) : Type 0 where
    pub valid : IsValid env Named q
    pub active : q.active_q ≡ p.active_q
    pub backoff :
        (j : String)
        → get_by_key q.pod_backoff_q j ≡ (
            if leb_ℤ cycle p.move_request_cycle
            then put env Named k info (get_by_key p.pod_backoff_q) j
            else get_by_key p.pod_backoff_q j)
    pub unschedulable :
        (n : String)
        → waiting env Named q n ≡ (
            if leb_ℤ cycle p.move_request_cycle
            then waiting env Named p n
            else put env Named (get_pod_full_name info.pod) info (waiting env Named p) n)

  other_name :
      (c : String → Option QueuedPodInfo)
      → ((j : String) (a : QueuedPodInfo) → c j ≡ some a → Named a.pod)
      → ((j : String) (a : QueuedPodInfo) → c j ≡ some a → pod_info_key_func env a ≡ value j)
      → c k ≡ none
      → (j : String) (a : QueuedPodInfo) → c j ≡ some a
      → get_pod_full_name info.pod ≢ get_pod_full_name a.pod
  other_name c names keys absent j a there same =
      let key = laws.same_name info.pod a.pod named (names j a there) same in
      let at : k ≡ j = cc (e, key, keys j a there) in cc (ap c at, absent, there)

  module _ (no_active : get_by_key p.active_q k ≡ none)
      (no_backoff : get_by_key p.pod_backoff_q k ≡ none)
      (no_wait : waiting env Named p (get_pod_full_name info.pod) ≡ none) where
    put-waiting :
        (n : String)
        → waiting env Named
            (record p { unschedulable_q = Unschedulable.add_or_update p.unschedulable_q info })
            n
          ≡ put env Named (get_pod_full_name info.pod) info (waiting env Named p) n
    unfolding Unschedulable.add_or_update
    put-waiting n = lookup-insert (get_pod_full_name info.pod) n info p.unschedulable_q.pod_info_map

    pub park-Parked :
        (cycle : ℤ) → Returns (λ (q, r). (r ≡ none) × Parked cycle q) (park env p info cycle)
    unfolding park
    park-Parked cycle = elim (Bool-cases (leb_ℤ cycle p.move_request_cycle)) [
      | inl after ↦ rw after (
          add_backoff-bind env Named laws p info k _ v.parts e λ h z. returns (
            refl,
            record {
              valid = record {
                parts = record {
                  active = v.parts.active;
                  backoff = z.valid;
                  unschedulable = v.parts.unschedulable;
                  nominated = Laws.add-IsConsistent p.nominator info.pod "" v.parts.nominated;
                  named_active = v.parts.named_active;
                  named_backoff =
                      put-AllNamed env Named k info _ _ v.parts.named_backoff named z.stored;
                  named_waiting = v.parts.named_waiting;
                };
                apart = swap-Apart env Named _ _ _ (
                    put-Apart env Named k info _ _ _ _ _ _ (swap-Apart env Named _ _ _ v.apart)
                      z.stored (absent-gone env Named k _ no_active)
                      (absent-gone env Named _ _ no_wait));
              };
              active = refl;
              backoff = λ j. rw after (z.stored j);
              unschedulable = λ n. rw after;
            },
          ))
      | inr before ↦ rw before (
          returns (
            refl,
            record {
              valid = record {
                parts = record {
                  active = v.parts.active;
                  backoff = v.parts.backoff;
                  unschedulable =
                      Unschedulable.add_or_update-IsValid p.unschedulable_q info
                        v.parts.unschedulable;
                  nominated = Laws.add-IsConsistent p.nominator info.pod "" v.parts.nominated;
                  named_active = v.parts.named_active;
                  named_backoff = v.parts.named_backoff;
                  named_waiting =
                      put-AllNamed env Named _ info _ _ v.parts.named_waiting named put-waiting;
                };
                apart =
                    park-Apart env Named info _ _ _ _ v.apart
                      (other_name _ v.parts.named_active
                        (λ j a.
                          Spec.key_of_stored (pod_info_key_func env) env.less p.active_q j a
                            v.parts.active)
                        no_active)
                      (other_name _ v.parts.named_backoff
                        (λ j a.
                          Spec.key_of_stored (pod_info_key_func env)
                            (pods_compare_backoff_completed p.config) p.pod_backoff_q j a
                            v.parts.backoff)
                        no_backoff)
                      put-waiting;
              };
              active = refl;
              backoff = λ j. rw before;
              unschedulable = λ n. rw before (put-waiting n);
            },
          ))
    ]
