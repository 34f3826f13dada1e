-- ===== src/Scheduler/Queue/PriorityQueue/Remove.antt =====
-- Pop and Delete of PriorityQueue.
use cloud_prophet.Prelude.{
  ◌+◌, ◌<◌, ◌≡◌, refl, sym, ◌∙◌, ap, String, false, none, some, arith, ◌==◌, if◌then◌else◌,
  string_eq, ok, Returns, returns, Returns-bind, value, Option-cases, inl, inr,
}
use cloud_prophet.Prelude.Int.{pos, ◌+ℤ◌, wrap64}
use cloud_prophet.Scheduler.Pod.{Pod, QueuedPodInfo, get_pod_full_name}
use cloud_prophet.Scheduler.Heap.{get_by_key}
use cloud_prophet.Scheduler.Heap
use cloud_prophet.Scheduler.Heap.Spec
use cloud_prophet.Scheduler.Queue.Nominator.Laws
use cloud_prophet.Scheduler.Queue.Unschedulable
use cloud_prophet.Scheduler.Queue.PriorityQueue.{
  PriorityQueue, QueueEnv, PopResult, popped, pop_failed, blocked, queue_closed, pod_info_key_func,
  pop, delete, delete_unschedulable, new_queued_pod_info_no_timestamp,
}
use cloud_prophet.Scheduler.Queue.PriorityQueue.Invariant.{
  EnvLaws, IsValid, waiting, gone, gone-AllNamed, shrink-Apart, gone-Shrinks, same-Shrinks,
  absent-gone,
}
use cloud_prophet.Scheduler.Queue.PriorityQueue.Steps.{delete_backoff-bind}
use cloud_prophet.Scheduler.Queue.PriorityQueue.Add.{waiting-delete}

module _ (env : QueueEnv) (Named : Pod → Type 0) (laws : EnvLaws env Named) where
  -- The pod that Pop returns, one attempt older, and the queue without it.
  pub record TakesHead (p : PriorityQueue) (q : PriorityQueue) (r : PopResult) : Type 0 where
    pub head : QueuedPodInfo
    pub key : String
    pub returned : r ≡ popped (record head { attempts = head.attempts + 1 })
    pub held : get_by_key p.active_q key ≡ some head
    pub first :
        (k : String) (a : QueuedPodInfo)
        → get_by_key p.active_q k ≡ some a
        → env.less a head ≡ false
    pub valid : IsValid env Named q
    pub active :
        (j : String) → get_by_key q.active_q j ≡ gone env Named key (get_by_key p.active_q) j
    pub cycle : q.scheduling_cycle ≡ wrap64 (p.scheduling_cycle +ℤ pos 1)

  -- With a pod in the active queue, Pop returns one that no other goes before in the order of the
  -- sort plugin, counts the attempt and the scheduling cycle, and keeps the invariant.
  pub pop-TakesHead :
      (p : PriorityQueue)
      → IsValid env Named p
      → 0 < Heap.len p.active_q
      → Returns (λ (q, r). TakesHead p q r) (pop env p)
  unfolding pop
  pop-TakesHead p v pos_len =
      let busy : (Heap.len p.active_q == 0) ≡ false = ground arith in
      rw busy (
        Returns-bind
          (Spec.pop-Pops (pod_info_key_func env) env.less laws.ordered p.active_q v.parts.active
            pos_len)
          λ (h, r) (o, key, got, z, least). rw got (
            returns (record {
              head = o;
              key = key;
              returned = refl;
              held = z.present;
              first = least;
              valid = record {
                parts = record {
                  active = z.valid;
                  backoff = v.parts.backoff;
                  unschedulable = v.parts.unschedulable;
                  nominated = v.parts.nominated;
                  named_active = gone-AllNamed env Named key _ _ v.parts.named_active z.rest;
                  named_backoff = v.parts.named_backoff;
                  named_waiting = v.parts.named_waiting;
                };
                apart =
                    shrink-Apart env Named _ _ _ _ _ _ v.apart
                      (gone-Shrinks env Named key _ _ z.rest) (same-Shrinks env Named _)
                      (same-Shrinks env Named _);
              };
              active = z.rest;
              cycle = refl;
            })))

  -- On an empty active queue Pop waits, or fails if the queue is closed, and changes nothing.
  pub pop-empty :
      (p : PriorityQueue)
      → Heap.len p.active_q ≡ 0
      → pop env p ≡ ok (p, if p.closed then pop_failed queue_closed else blocked)
  unfolding pop
  pop-empty p e = ground (arith, e)

  -- Where a pod is not in the active queue, whatever the two others hold under it goes.
  abbrev pub Deleted : PriorityQueue → Pod → String → PriorityQueue → Type 0
  Deleted p pod k q =
      IsValid env Named q
      × ((j : String) → get_by_key q.active_q j ≡ gone env Named k (get_by_key p.active_q) j)
      × ((j : String)
          → get_by_key q.pod_backoff_q j ≡ gone env Named k (get_by_key p.pod_backoff_q) j)
      × ((n : String)
          → waiting env Named q n ≡ gone env Named (get_pod_full_name pod) (waiting env Named p) n)

  module _ (p : PriorityQueue) (pod : Pod) (k : String) (v : IsValid env Named p)
      (named : Named pod) (e : env.meta_namespace_key_func pod ≡ value k) where
    -- A pod that is in the active queue is not in the unschedulable one.
    active-waiting :
        (a : QueuedPodInfo)
        → get_by_key p.active_q k ≡ some a
        → waiting env Named p (get_pod_full_name pod) ≡ none
    active-waiting a there =
        let name : get_pod_full_name a.pod ≡ get_pod_full_name pod =
          laws.same_key a.pod pod (v.parts.named_active k a there) named (
            Spec.key_of_stored (pod_info_key_func env) env.less p.active_q k a v.parts.active there
            ∙ sym e) in
        ap (waiting env Named p) (sym name) ∙ v.apart.active_waiting k a there

    -- Delete takes a pod with an accepted name out of whichever queue holds it, and keeps the
    -- invariant.
    pub delete-Deleted : Returns (Deleted p pod k) (delete env p pod)
    unfolding delete new_queued_pod_info_no_timestamp
    delete-Deleted = elim (Option-cases (get_by_key p.active_q k)) [
      | inr (a, there) ↦
          let wait =
            absent-gone env Named (get_pod_full_name pod) (waiting env Named p)
              (active-waiting a there) in
          let back =
            absent-gone env Named k (get_by_key p.pod_backoff_q)
              (v.apart.active_backoff k a there) in
          Returns-bind
            (Spec.delete-Removed (pod_info_key_func env) env.less laws.ordered p.active_q info a k
              v.parts.active e there)
            λ (h, r) (n, z). rw n (
              returns (
                record {
                  parts = record {
                    active = z.valid;
                    backoff = v.parts.backoff;
                    unschedulable = v.parts.unschedulable;
                    nominated = Laws.delete-IsConsistent p.nominator pod v.parts.nominated;
                    named_active = gone-AllNamed env Named k _ _ v.parts.named_active z.rest;
                    named_backoff = v.parts.named_backoff;
                    named_waiting = v.parts.named_waiting;
                  };
                  apart =
                      shrink-Apart env Named _ _ _ _ _ _ v.apart
                        (gone-Shrinks env Named k _ _ z.rest) (same-Shrinks env Named _)
                        (same-Shrinks env Named _);
                },
                z.rest,
                back,
                wait,
              ))
      | inl absent ↦
          rw (Spec.delete-not_found (pod_info_key_func env) env.less p.active_q info k e absent) (
            delete_backoff-bind env Named laws _ info k _ v.parts.backoff e λ b r vb left. returns (
              record {
                parts = record {
                  active = v.parts.active;
                  backoff = vb;
                  unschedulable = kept;
                  nominated = Laws.delete-IsConsistent p.nominator pod v.parts.nominated;
                  named_active = v.parts.named_active;
                  named_backoff = gone-AllNamed env Named k _ _ v.parts.named_backoff left;
                  named_waiting = gone-AllNamed env Named _ _ _ v.parts.named_waiting waits;
                };
                apart =
                    shrink-Apart env Named _ _ _ _ _ _ v.apart (same-Shrinks env Named _)
                      (gone-Shrinks env Named k _ _ left)
                      (gone-Shrinks env Named (get_pod_full_name pod) _ _ waits);
              },
              absent-gone env Named k (get_by_key p.active_q) absent,
              left,
              waits,
            ))
    ]
      where
        info : QueuedPodInfo
        info = new_queued_pod_info_no_timestamp pod

        kept : Unschedulable.IsValid (delete_unschedulable p pod).unschedulable_q
        kept =
            unfold delete_unschedulable in
            Unschedulable.delete-IsValid p.unschedulable_q pod v.parts.unschedulable

        waits :
            (n : String)
            → waiting env Named (delete_unschedulable p pod) n
              ≡ gone env Named (get_pod_full_name pod) (waiting env Named p) n
        waits = waiting-delete env Named laws p pod
