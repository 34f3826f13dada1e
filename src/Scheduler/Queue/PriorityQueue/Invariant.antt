-- ===== src/Scheduler/Queue/PriorityQueue/Invariant.antt =====
-- The invariant of PriorityQueue: its three queues are sound, and no pod is in two of them.
use cloud_prophet.Prelude.{
  ◌≡◌, refl, ◌≢◌, ◌⊎◌, String, Option, none, some, arith, if◌then◌else◌, string_eq, ◌===◌, value,
  Option-cases, inl, inr,
}
use cloud_prophet.Prelude.Map.{lookup}
use cloud_prophet.Scheduler.Pod.{Pod, QueuedPodInfo, get_pod_full_name}
use cloud_prophet.Scheduler.Heap.{get_by_key}
use cloud_prophet.Scheduler.Heap.Storage.Laws.{IsStrictWeak}
use cloud_prophet.Scheduler.Heap.Spec
use cloud_prophet.Scheduler.Queue.Backoff.{pods_compare_backoff_completed}
use cloud_prophet.Scheduler.Queue.Nominator
use cloud_prophet.Scheduler.Queue.Nominator.Laws
use cloud_prophet.Scheduler.Queue.Unschedulable
use cloud_prophet.Scheduler.Queue.Unschedulable.{UnschedulablePodsMap}
use cloud_prophet.Scheduler.Queue.PriorityQueue.{PriorityQueue, QueueEnv, pod_info_key_func}

-- What the queue relies on, for the pods whose names the API server accepts: the key is computed, is
-- the same for the same full name and differs for another, and the sort plugin orders the pods.
pub record EnvLaws (env : QueueEnv) (Named : Pod → Type 0) : Type 0 where
  pub total : (p : Pod) → Named p → (k : String) × (env.meta_namespace_key_func p ≡ value k)
  pub same_key :
      (p q : Pod)
      → Named p
      → Named q
      → env.meta_namespace_key_func p ≡ env.meta_namespace_key_func q
      → get_pod_full_name p ≡ get_pod_full_name q
  pub same_name :
      (p q : Pod)
      → Named p
      → Named q
      → get_pod_full_name p ≡ get_pod_full_name q
      → env.meta_namespace_key_func p ≡ env.meta_namespace_key_func q
  pub ordered : IsStrictWeak env.less

module _ (env : QueueEnv) (Named : Pod → Type 0) where
  abbrev pub AllNamed : (String → Option QueuedPodInfo) → Type 0
  AllNamed c = (k : String) (info : QueuedPodInfo) → c k ≡ some info → Named info.pod

  abbrev pub waiting : PriorityQueue → String → Option QueuedPodInfo
  waiting p k = lookup k p.unschedulable_q.pod_info_map

  -- Each of the queues by itself.
  pub record Parts (p : PriorityQueue) : Type 0 where
    pub active : Spec.IsValid (pod_info_key_func env) env.less p.active_q
    pub backoff :
        Spec.IsValid
          (pod_info_key_func env)
          (pods_compare_backoff_completed p.config)
          p.pod_backoff_q
    pub unschedulable : Unschedulable.IsValid p.unschedulable_q
    pub nominated : Nominator.Laws.IsConsistent p.nominator
    pub named_active : AllNamed (get_by_key p.active_q)
    pub named_backoff : AllNamed (get_by_key p.pod_backoff_q)
    pub named_waiting : AllNamed (waiting p)

  -- No pod of the active or the backoff queue is in another queue.
  pub record Apart (act back wait : String → Option QueuedPodInfo) : Type 0 where
    pub active_backoff : (k : String) (a : QueuedPodInfo) → act k ≡ some a → back k ≡ none
    pub active_waiting :
        (k : String) (a : QueuedPodInfo) → act k ≡ some a → wait (get_pod_full_name a.pod) ≡ none
    pub backoff_waiting :
        (k : String) (b : QueuedPodInfo) → back k ≡ some b → wait (get_pod_full_name b.pod) ≡ none

  pub record IsValid (p : PriorityQueue) : Type 0 where
    pub parts : Parts p
    pub apart : Apart (get_by_key p.active_q) (get_by_key p.pod_backoff_q) (waiting p)

  abbrev pub put :
      String → QueuedPodInfo → (String → Option QueuedPodInfo) → String → Option QueuedPodInfo
  put k info c j = if k === j then some info else c j

  abbrev pub gone : String → (String → Option QueuedPodInfo) → String → Option QueuedPodInfo
  gone k c j = if k === j then none else c j

  pub put-AllNamed :
      (k : String) (info : QueuedPodInfo) (c d : String → Option QueuedPodInfo)
      → AllNamed c
      → Named info.pod
      → ((j : String) → d j ≡ put k info c j)
      → AllNamed d
  put-AllNamed k info c d n m e j i q = ground (arith, e j, n j i, m, q)

  pub gone-AllNamed :
      (k : String) (c d : String → Option QueuedPodInfo)
      → AllNamed c
      → ((j : String) → d j ≡ gone k c j)
      → AllNamed d
  gone-AllNamed k c d n e j i q = ground (arith, e j, n j i, q)

  pub swap-Apart :
      (act back wait : String → Option QueuedPodInfo) → Apart act back wait → Apart back act wait
  swap-Apart act back wait v = record {
    active_backoff = λ k b e. elim (Option-cases (act k)) [
      | inl absent ↦ absent
      | inr (a, there) ↦ absurd (ground (arith, v.active_backoff k a there, e))
    ];
    active_waiting = v.backoff_waiting;
    backoff_waiting = v.active_waiting;
  }

  -- A pod that goes into one queue and out of the two others.
  pub put-Apart :
      (k : String) (info : QueuedPodInfo)
      (act back wait act' back' wait' : String → Option QueuedPodInfo)
      → Apart act back wait
      → ((j : String) → act' j ≡ put k info act j)
      → ((j : String) → back' j ≡ gone k back j)
      → ((n : String) → wait' n ≡ gone (get_pod_full_name info.pod) wait n)
      → Apart act' back' wait'
  put-Apart k info act back wait act' back' wait' v ea eb ew = record {
    active_backoff = λ j a e. ground (arith, ea j, eb j, v.active_backoff j a, e);
    active_waiting = λ j a e. ground (
      arith,
      ea j,
      ew (get_pod_full_name a.pod),
      v.active_waiting j a,
      string_eq.beq_iff (get_pod_full_name info.pod) (get_pod_full_name a.pod),
      e,
    );
    backoff_waiting = λ j b e. ground (
      arith,
      eb j,
      ew (get_pod_full_name b.pod),
      v.backoff_waiting j b,
      string_eq.beq_iff (get_pod_full_name info.pod) (get_pod_full_name b.pod),
      e,
    );
  }

  -- A pod that goes into the unschedulable queue from outside.
  pub park-Apart :
      (info : QueuedPodInfo) (act back wait wait' : String → Option QueuedPodInfo)
      → Apart act back wait
      → ((k : String) (a : QueuedPodInfo)
          → act k ≡ some a
          → get_pod_full_name info.pod ≢ get_pod_full_name a.pod)
      → ((k : String) (b : QueuedPodInfo)
          → back k ≡ some b
          → get_pod_full_name info.pod ≢ get_pod_full_name b.pod)
      → ((n : String) → wait' n ≡ put (get_pod_full_name info.pod) info wait n)
      → Apart act back wait'
  park-Apart info act back wait wait' v na nb ew = record {
    active_backoff = v.active_backoff;
    active_waiting = λ k a e. ground (
      arith,
      ew (get_pod_full_name a.pod),
      v.active_waiting k a e,
      na k a e,
      string_eq.beq_iff (get_pod_full_name info.pod) (get_pod_full_name a.pod),
    );
    backoff_waiting = λ k b e. ground (
      arith,
      ew (get_pod_full_name b.pod),
      v.backoff_waiting k b e,
      nb k b e,
      string_eq.beq_iff (get_pod_full_name info.pod) (get_pod_full_name b.pod),
    );
  }

  -- Each queue keeps only what it had.
  abbrev pub Shrinks : (String → Option QueuedPodInfo) → (String → Option QueuedPodInfo) → Type 0
  Shrinks c d = (j : String) → (d j ≡ none) ⊎ (d j ≡ c j)

  pub shrink-Apart :
      (act back wait act' back' wait' : String → Option QueuedPodInfo)
      → Apart act back wait
      → Shrinks act act'
      → Shrinks back back'
      → Shrinks wait wait'
      → Apart act' back' wait'
  shrink-Apart act back wait act' back' wait' v sa sb sw = record {
    active_backoff = λ j a e. ground (arith, sa j, sb j, v.active_backoff j a, e);
    active_waiting =
        λ j a e. ground (arith, sa j, sw (get_pod_full_name a.pod), v.active_waiting j a, e);
    backoff_waiting =
        λ j b e. ground (arith, sb j, sw (get_pod_full_name b.pod), v.backoff_waiting j b, e);
  }

  pub gone-Shrinks :
      (k : String) (c d : String → Option QueuedPodInfo)
      → ((j : String) → d j ≡ gone k c j)
      → Shrinks c d
  gone-Shrinks k c d e j = ground (arith, e j)

  pub same-Shrinks : (c : String → Option QueuedPodInfo) → Shrinks c c
  same-Shrinks c j = inr refl

  pub absent-gone :
      (k : String) (c : String → Option QueuedPodInfo)
      → c k ≡ none
      → (j : String) → c j ≡ gone k c j
  absent-gone k c e j = ground (arith, string_eq.beq_iff k j, e)
