-- ===== src/Scheduler/Queue/PriorityQueue/Move.antt =====
-- movePodsToActiveOrBackoffQueue of PriorityQueue.
use cloud_prophet.Prelude.{
  ◌≡◌, refl, sym, ◌∙◌, ap, ◌⊎◌, inl, inr, String, Bool, Option, none, some, arith, if◌then◌else◌,
  string_eq, beq_refl, Returns, returns, value, Option-cases, Bool-cases,
}
use cloud_prophet.Prelude.Int.{ℤ}
use cloud_prophet.Scheduler.Pod.{Pod, QueuedPodInfo, get_pod_full_name}
use cloud_prophet.Scheduler.Heap.{get_by_key}
use cloud_prophet.Scheduler.Heap.Spec
use cloud_prophet.Scheduler.Queue.Backoff.{is_pod_backing_off, pods_compare_backoff_completed}
use cloud_prophet.Scheduler.Queue.Unschedulable
use cloud_prophet.Scheduler.Queue.PriorityQueue.{
  PriorityQueue, QueueEnv, pod_info_key_func, move_one, moved, delete_unschedulable,
}
use cloud_prophet.Scheduler.Queue.PriorityQueue.Invariant.{
  EnvLaws, IsValid, waiting, put, gone, put-AllNamed, gone-AllNamed, put-Apart, swap-Apart,
  absent-gone,
}
use cloud_prophet.Scheduler.Queue.PriorityQueue.Steps.{add_active-bind, add_backoff-bind}
use cloud_prophet.Scheduler.Queue.PriorityQueue.Add.{waiting-delete}

module _ (env : QueueEnv) (Named : Pod → Type 0) (laws : EnvLaws env Named) where
  -- The pod has a place in the active or the backoff queue.
  abbrev pub InQueue : PriorityQueue → String → QueuedPodInfo → Type 0
  InQueue p k a = (get_by_key p.active_q k ≡ some a) ⊎ (get_by_key p.pod_backoff_q k ≡ some a)

  -- The move of one waiting pod to the backoff queue, if `b`, or else to the active queue.
  pub record MovedOne (p : PriorityQueue) (info : QueuedPodInfo) (k : String) (b : Bool)
      (q : PriorityQueue) : Type 0 where
    pub valid : IsValid env Named q
    pub active :
        (j : String)
        → get_by_key q.active_q j
          ≡ (if b then get_by_key p.active_q j else put env Named k info (get_by_key p.active_q) j)
    pub backoff :
        (j : String)
        → get_by_key q.pod_backoff_q j ≡ (
            if b
            then put env Named k info (get_by_key p.pod_backoff_q) j
            else get_by_key p.pod_backoff_q j)
    pub left :
        (n : String)
        → waiting env Named q n
          ≡ gone env Named (get_pod_full_name info.pod) (waiting env Named p) n
    pub cycle : q.scheduling_cycle ≡ p.scheduling_cycle

  module _ (p : PriorityQueue) (info : QueuedPodInfo) (k : String) (v : IsValid env Named p)
      (waits : waiting env Named p (get_pod_full_name info.pod) ≡ some info)
      (e : pod_info_key_func env info ≡ value k) where
    named : Named info.pod
    named = v.parts.named_waiting (get_pod_full_name info.pod) info waits

    absent :
        (c : String → Option QueuedPodInfo)
        → ((a : QueuedPodInfo) → c k ≡ some a → Named a.pod)
        → ((a : QueuedPodInfo) → c k ≡ some a → pod_info_key_func env a ≡ value k)
        → ((a : QueuedPodInfo)
            → c k ≡ some a
            → waiting env Named p (get_pod_full_name a.pod) ≡ none)
        → c k ≡ none
    absent c names keys apart = elim (Option-cases (c k)) [
      | inl nothing ↦ nothing
      | inr (a, there) ↦
          let same = laws.same_key a.pod info.pod (names a there) named (keys a there ∙ sym e) in
          let clash : none ≡ some info =
            sym (apart a there) ∙ ap (waiting env Named p) same ∙ waits in
          absurd (cc clash)
    ]

    -- A waiting pod has no place in the two other queues.
    pub absent_active : get_by_key p.active_q k ≡ none
    absent_active =
        absent (get_by_key p.active_q) (v.parts.named_active k)
          (λ a. Spec.key_of_stored (pod_info_key_func env) env.less p.active_q k a v.parts.active)
          (v.apart.active_waiting k)

    pub absent_backoff : get_by_key p.pod_backoff_q k ≡ none
    absent_backoff =
        absent (get_by_key p.pod_backoff_q) (v.parts.named_backoff k)
          (λ a.
            Spec.key_of_stored (pod_info_key_func env) (pods_compare_backoff_completed p.config)
              p.pod_backoff_q k a v.parts.backoff)
          (v.apart.backoff_waiting k)

    kept : Unschedulable.IsValid (delete_unschedulable p info.pod).unschedulable_q
    kept =
        unfold delete_unschedulable in
        Unschedulable.delete-IsValid p.unschedulable_q info.pod v.parts.unschedulable

    left_waiting :
        (n : String)
        → waiting env Named (delete_unschedulable p info.pod) n
          ≡ gone env Named (get_pod_full_name info.pod) (waiting env Named p) n
    left_waiting = waiting-delete env Named laws p info.pod

    pub move_one-MovedOne :
        (now : ℤ)
        → Returns
            (MovedOne p info k (is_pod_backing_off p.config now info))
            (move_one env p info now)
    unfolding move_one moved
    move_one-MovedOne now = elim (Bool-cases (is_pod_backing_off p.config now info)) [
      | inl late ↦ rw late (
          add_backoff-bind env Named laws p info k _ v.parts e λ h z. returns (record {
            valid = record {
              parts = record {
                active = v.parts.active;
                backoff = z.valid;
                unschedulable = kept;
                nominated = v.parts.nominated;
                named_active = v.parts.named_active;
                named_backoff =
                    put-AllNamed env Named k info _ _ v.parts.named_backoff named z.stored;
                named_waiting = gone-AllNamed env Named _ _ _ v.parts.named_waiting left_waiting;
              };
              apart = swap-Apart env Named _ _ _ (
                  put-Apart env Named k info _ _ _ _ _ _ (swap-Apart env Named _ _ _ v.apart)
                    z.stored (absent-gone env Named k _ absent_active) left_waiting);
            };
            active = λ j. refl;
            backoff = z.stored;
            left = left_waiting;
            cycle = refl;
          }))
      | inr due ↦ rw due (
          add_active-bind env Named laws p info k _ v.parts e λ h z. returns (record {
            valid = record {
              parts = record {
                active = z.valid;
                backoff = v.parts.backoff;
                unschedulable = kept;
                nominated = v.parts.nominated;
                named_active =
                    put-AllNamed env Named k info _ _ v.parts.named_active named z.stored;
                named_backoff = v.parts.named_backoff;
                named_waiting = gone-AllNamed env Named _ _ _ v.parts.named_waiting left_waiting;
              };
              apart =
                  put-Apart env Named k info _ _ _ _ _ _ v.apart z.stored
                    (absent-gone env Named k _ absent_backoff) left_waiting;
            };
            active = z.stored;
            backoff = λ j. refl;
            left = left_waiting;
            cycle = refl;
          }))
    ]

    -- A move loses no pod of the two other queues, and finds the moved one a place.
    pub InQueue-moved :
        (b : Bool) (q : PriorityQueue)
        → MovedOne p info k b q
        → InQueue q k info × ((j : String) (a : QueuedPodInfo) → InQueue p j a → InQueue q j a)
    InQueue-moved b q z = (
      ground (arith, z.active k, z.backoff k, beq_refl k),
      λ j a i.
          ground (
            arith,
            z.active j,
            z.backoff j,
            absent_active,
            absent_backoff,
            string_eq.beq_iff k j,
            i,
          ),
    )
