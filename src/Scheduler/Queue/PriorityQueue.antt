-- ===== src/Scheduler/Queue/PriorityQueue.antt =====
-- scheduler/internal/queue/scheduling_queue.go: PriorityQueue. The lock makes each call one step.
-- Readings of the clock are arguments; `broadcasts` counts the calls of cond.Broadcast.
pub mod Add
pub mod Remove
pub mod Move
pub mod MoveAll
pub mod Park
pub mod ParkAll
pub mod Steps
pub mod Start
pub mod Invariant
use cloud_prophet.Prelude.{
  ℕ, zero, suc, ◌+◌, ◌*◌, String, Bool, true, false, not, Option, none, some, List, [], ◌∷◌, ◌++◌,
  map, ltb, ◌==◌, if◌then◌else◌, length, string_eq, ◌===◌, Run, ok, panic, out_of_fuel, ◌>>=◌,
  Result, value, error,
}
use cloud_prophet.Prelude.Int.{ℤ, pos, negsuc, ◌+ℤ◌, ◌-ℤ◌, ltb_ℤ, leb_ℤ, wrap64}
use cloud_prophet.Scheduler.Pod.{
  Pod, QueuedPodInfo, PodAffinityTerm, get_pod_affinity_terms,
  get_namespaces_from_pod_affinity_term,
}
use cloud_prophet.Scheduler.Heap.{Heap, HeapError, new_with_recorder}
use cloud_prophet.Scheduler.Heap
use cloud_prophet.Scheduler.Queue.Backoff.{
  BackoffConfig, is_pod_backing_off, get_backoff_time, pods_compare_backoff_completed,
}
use cloud_prophet.Scheduler.Queue.Nominator.{
  NominatedPodMap, new_pod_nominator, update_nominated_pod,
}
use cloud_prophet.Scheduler.Queue.Nominator
use cloud_prophet.Scheduler.Queue.Unschedulable.{UnschedulablePodsMap, new_unschedulable_pods_map}
use cloud_prophet.Scheduler.Queue.Unschedulable

pub record PriorityQueue : Type 0 where
  pub nominator : NominatedPodMap
  pub config : BackoffConfig
  pub active_q : Heap QueuedPodInfo
  pub pod_backoff_q : Heap QueuedPodInfo
  pub unschedulable_q : UnschedulablePodsMap
  pub scheduling_cycle : ℤ
  pub move_request_cycle : ℤ
  pub closed : Bool
  pub broadcasts : ℕ

-- What the queue calls: cache.MetaNamespaceKeyFunc, the sort plugin's Less, reflect.DeepEqual,
-- metav1.LabelSelectorAsSelector and Selector.Matches.
pub record QueueEnv : Type 0 where
  pub meta_namespace_key_func : Pod → Result String String
  pub less : QueuedPodInfo → QueuedPodInfo → Bool
  pub deep_equal : Pod → Pod → Bool
  pub as_selector : ℕ → Option ℕ
  pub matches : ℕ → ℕ → Bool

pub data QueueError : Type 0 where
  heap_error : HeapError QueuedPodInfo → QueueError
  already_unschedulable already_active already_backing_off queue_closed : QueueError

-- What Pop does: `blocked` is the wait on the condition variable.
pub data PopResult : Type 0 where
  popped : QueuedPodInfo → PopResult
  pop_failed : QueueError → PopResult
  blocked : PopResult

pub broadcast : PriorityQueue → PriorityQueue
broadcast p = record p { broadcasts = p.broadcasts + 1 }

abbrev pub unschedulable_q_time_interval : ℤ
unschedulable_q_time_interval = pos (60 * 1000000000)

unfoldable pub new_priority_queue : BackoffConfig → PriorityQueue
new_priority_queue c = record {
  nominator = new_pod_nominator;
  config = c;
  active_q = new_with_recorder (some (pos 0));
  pod_backoff_q = new_with_recorder (some (pos 0));
  unschedulable_q = new_unschedulable_pods_map (some (pos 0));
  scheduling_cycle = pos 0;
  move_request_cycle = negsuc 0;
  closed = false;
  broadcasts = 0;
}

pub new_queued_pod_info : ℤ → Pod → QueuedPodInfo
new_queued_pod_info now pod = record {
  pod = pod;
  timestamp = now;
  attempts = 0;
  initial_attempt_timestamp = now;
}

-- The zero times stand for time.Time{}, which nothing reads.
pub new_queued_pod_info_no_timestamp : Pod → QueuedPodInfo
new_queued_pod_info_no_timestamp pod = record {
  pod = pod;
  timestamp = pos 0;
  attempts = 0;
  initial_attempt_timestamp = pos 0;
}

pub update_pod : QueuedPodInfo → Pod → QueuedPodInfo
update_pod info pod = record info { pod = pod }

strip : Pod → Pod
strip p = record p {
  resource_version = "";
  generation = pos 0;
  status = record { nominated_node_name = ""; other_status = 0 };
}

unfoldable pub delete_unschedulable : PriorityQueue → Pod → PriorityQueue
delete_unschedulable p pod = record p {
  unschedulable_q = Unschedulable.delete p.unschedulable_q pod;
}

-- if p.unschedulableQ.get(pod) != nil { p.unschedulableQ.delete(pod) }
unfoldable pub discard_unschedulable : PriorityQueue → Pod → PriorityQueue
unfolding delete_unschedulable
discard_unschedulable p pod = elim (Unschedulable.get p.unschedulable_q pod) [
  | none ↦ p
  | some old ↦ delete_unschedulable p pod
]

module _ (env : QueueEnv) where
  abbrev pub pod_info_key_func : QueuedPodInfo → Result String String
  pod_info_key_func info = env.meta_namespace_key_func info.pod

  unfoldable pub add_active :
      PriorityQueue → QueuedPodInfo → Run (PriorityQueue × Option (HeapError QueuedPodInfo))
  add_active p info = Heap.add pod_info_key_func env.less p.active_q info >>= λ (h, e).
      ok (record p { active_q = h }, e)

  unfoldable pub add_backoff :
      PriorityQueue → QueuedPodInfo → Run (PriorityQueue × Option (HeapError QueuedPodInfo))
  add_backoff p info =
      Heap.add pod_info_key_func (pods_compare_backoff_completed p.config) p.pod_backoff_q info
      >>= λ (h, e). ok (record p { pod_backoff_q = h }, e)

  unfoldable pub delete_backoff :
      PriorityQueue → QueuedPodInfo → Run (PriorityQueue × Option (HeapError QueuedPodInfo))
  delete_backoff p info =
      Heap.delete pod_info_key_func (pods_compare_backoff_completed p.config) p.pod_backoff_q info
      >>= λ (h, e). ok (record p { pod_backoff_q = h }, e)

  abbrev failed : PriorityQueue → HeapError QueuedPodInfo → Run (PriorityQueue × Option QueueError)
  failed p e = ok (p, some (heap_error e))

  unfoldable pub add : PriorityQueue → Pod → ℤ → Run (PriorityQueue × Option QueueError)
  unfolding add_active discard_unschedulable delete_backoff new_queued_pod_info broadcast
  add p pod now =
      let info = new_queued_pod_info now pod in
      add_active p info >>= λ (q, e). elim e [
        | some err ↦ failed q err
        | none ↦ delete_backoff (discard_unschedulable q pod) info >>= λ (s, _).
            ok (broadcast (record s { nominator = Nominator.add s.nominator pod "" }), none)
      ]

  -- The lookup of an entry by the key of the pod; a key error reads as absent.
  abbrev found : Result (HeapError QueuedPodInfo) (Option QueuedPodInfo) → Option QueuedPodInfo
  found (value r) = r
  found (error e) = none

  abbrev pub in_active : PriorityQueue → QueuedPodInfo → Option QueuedPodInfo
  in_active p info = found (Heap.get pod_info_key_func env.less p.active_q info)

  abbrev pub in_backoff : PriorityQueue → QueuedPodInfo → Option QueuedPodInfo
  in_backoff p info =
      found
        (Heap.get pod_info_key_func (pods_compare_backoff_completed p.config) p.pod_backoff_q info)

  -- The last steps of AddUnschedulableIfNotPresent, for a pod that is in no queue.
  unfoldable pub park : PriorityQueue → QueuedPodInfo → ℤ → Run (PriorityQueue × Option QueueError)
  unfolding add_backoff
  park p info cycle =
      let nominate = λ (q : PriorityQueue).
        ok (record q { nominator = Nominator.add q.nominator info.pod "" }, none) in
      if leb_ℤ cycle p.move_request_cycle
      then (add_backoff p info >>= λ (q, e). elim e [ some err ↦ failed q err | none ↦ nominate q ])
      else nominate
          (record p { unschedulable_q = Unschedulable.add_or_update p.unschedulable_q info })

  unfoldable pub add_unschedulable_if_not_present :
      PriorityQueue → QueuedPodInfo → ℤ → ℤ → Run (PriorityQueue × Option QueueError)
  unfolding park
  add_unschedulable_if_not_present p info cycle now =
      let fresh = record info { timestamp = now } in
      elim (Unschedulable.get p.unschedulable_q info.pod) [
        | some old ↦ ok (p, some already_unschedulable)
        | none ↦ elim (in_active p fresh) [
          | some old ↦ ok (p, some already_active)
          | none ↦ elim (in_backoff p fresh) [
            | some old ↦ ok (p, some already_backing_off)
            | none ↦ park p fresh cycle
          ]
        ]
      ]

  -- One round of flushBackoffQCompleted: the next queue, or `none` where the loop returns.
  unfoldable pub flush_round : PriorityQueue → ℤ → Run (PriorityQueue × Bool)
  unfolding add_active broadcast
  flush_round p now = Heap.peek p.pod_backoff_q >>= elim [
    | none ↦ ok (p, false)
    | some info ↦
        let moved =
          Heap.pop pod_info_key_func (pods_compare_backoff_completed p.config) p.pod_backoff_q
          >>= λ (h, r). elim r [
            | error e ↦ ok (record p { pod_backoff_q = h }, false)
            | value _ ↦ add_active (record p { pod_backoff_q = h }) info >>= λ (q, _).
                ok (broadcast q, true)
          ] in
        if is_pod_backing_off p.config now info then ok (p, false) else moved
  ]

  unfoldable pub flush_loop : ℕ → PriorityQueue → (ℕ → ℤ) → Run PriorityQueue
  flush_loop zero p clock = out_of_fuel
  flush_loop (suc k) p clock = flush_round p (clock k) >>= λ (q, more).
      let rest = flush_loop k q clock in if more then rest else ok q

  -- Every round but the last takes a pod out of the backoff queue.
  unfoldable pub flush_backoff_q_completed : PriorityQueue → (ℕ → ℤ) → Run PriorityQueue
  unfolding flush_loop flush_round
  flush_backoff_q_completed p clock = flush_loop (suc (Heap.len p.pod_backoff_q)) p clock

  -- Out of the unschedulable queue, if the pod could be added to the other.
  unfoldable pub moved : Pod → PriorityQueue × Option (HeapError QueuedPodInfo) → Run PriorityQueue
  unfolding delete_unschedulable
  moved pod (q, some err) = ok q
  moved pod (q, none) = ok (delete_unschedulable q pod)

  unfoldable pub move_one : PriorityQueue → QueuedPodInfo → ℤ → Run PriorityQueue
  unfolding add_active add_backoff moved
  move_one p info now =
      if is_pod_backing_off p.config now info
      then (add_backoff p info >>= moved info.pod)
      else (add_active p info >>= moved info.pod)

  unfoldable pub move_each : PriorityQueue → List QueuedPodInfo → (ℕ → ℤ) → Run PriorityQueue
  unfolding move_one
  move_each p [] clock = ok p
  move_each p (info ∷ rest) clock =
      move_one p info (clock (length rest)) >>= λ q. move_each q rest clock

  unfoldable pub move_pods_to_active_or_backoff_queue :
      PriorityQueue → List QueuedPodInfo → (ℕ → ℤ) → Run PriorityQueue
  unfolding move_each broadcast
  move_pods_to_active_or_backoff_queue p infos clock = move_each p infos clock >>= λ q.
      ok (broadcast (record q { move_request_cycle = q.scheduling_cycle }))

  abbrev stale : ℤ → List (String × QueuedPodInfo) → List QueuedPodInfo
  stale now [] = []
  stale now ((k, info) ∷ rest) =
      if ltb_ℤ unschedulable_q_time_interval (now -ℤ info.timestamp)
      then info ∷ stale now rest
      else stale now rest

  unfoldable pub flush_unschedulable_q_leftover : PriorityQueue → ℤ → (ℕ → ℤ) → Run PriorityQueue
  unfolding move_pods_to_active_or_backoff_queue
  flush_unschedulable_q_leftover p now clock =
      let move =
        λ (infos : List QueuedPodInfo). move_pods_to_active_or_backoff_queue p infos clock in
      elim (stale now p.unschedulable_q.pod_info_map) [ [] ↦ ok p | i ∷ is ↦ move (i ∷ is) ]

  unfoldable pub move_all_to_active_or_backoff_queue : PriorityQueue → (ℕ → ℤ) → Run PriorityQueue
  unfolding move_pods_to_active_or_backoff_queue
  move_all_to_active_or_backoff_queue p clock =
      move_pods_to_active_or_backoff_queue p
        (map (λ (k, info). info) p.unschedulable_q.pod_info_map) clock

  contains : List String → String → Bool
  contains [] n = false
  contains (m ∷ ms) n = if m === n then true else contains ms n

  -- PodMatchesTermsNamespaceAndSelector; a nil selector panics when it is asked.
  term_matches : Pod → Pod → PodAffinityTerm → Run Bool
  unfolding contains
  term_matches pod up term =
      let asked = elim (env.as_selector term.label_selector) as (λ _. Run Bool) [
        | none ↦ panic
        | some selector ↦ ok (env.matches selector pod.labels)
      ] in
      if contains (get_namespaces_from_pod_affinity_term up term) pod.namespace
      then asked
      else ok false

  any_term_matches : Pod → Pod → List PodAffinityTerm → Run Bool
  unfolding term_matches
  any_term_matches pod up [] = ok false
  any_term_matches pod up (term ∷ terms) = term_matches pod up term >>= λ hit.
      let rest = any_term_matches pod up terms in if hit then ok true else rest

  with_matching_term : Pod → List (String × QueuedPodInfo) → Run (List QueuedPodInfo)
  unfolding any_term_matches
  with_matching_term pod [] = ok []
  with_matching_term pod ((k, info) ∷ rest) =
      any_term_matches pod info.pod (get_pod_affinity_terms info.pod.spec.affinity) >>= λ hit.
      with_matching_term pod rest >>= λ infos. ok (if hit then info ∷ infos else infos)

  unfoldable pub get_unschedulable_pods_with_matching_affinity_term :
      PriorityQueue → Pod → Run (List QueuedPodInfo)
  unfolding with_matching_term
  get_unschedulable_pods_with_matching_affinity_term p pod =
      with_matching_term pod p.unschedulable_q.pod_info_map

  -- AssignedPodAdded, and AssignedPodUpdated, which differs in the metric's event.
  unfoldable pub assigned_pod_added : PriorityQueue → Pod → (ℕ → ℤ) → Run PriorityQueue
  unfolding get_unschedulable_pods_with_matching_affinity_term move_pods_to_active_or_backoff_queue
  assigned_pod_added p pod clock =
      get_unschedulable_pods_with_matching_affinity_term p pod >>= λ infos.
      move_pods_to_active_or_backoff_queue p infos clock

  -- One pass of Pop: the loop waits for a broadcast where this is `blocked`.
  unfoldable pub pop : PriorityQueue → Run (PriorityQueue × PopResult)
  pop p =
      let taken = Heap.pop pod_info_key_func env.less p.active_q >>= λ (h, r). elim r [
        | error e ↦ ok (record p { active_q = h }, pop_failed (heap_error e))
        | value info ↦ ok (
          record p { active_q = h; scheduling_cycle = wrap64 (p.scheduling_cycle +ℤ pos 1) },
          popped (record info { attempts = info.attempts + 1 }),
        )
      ] in
      if Heap.len p.active_q == 0
      then (if p.closed then ok (p, pop_failed queue_closed) else ok (p, blocked))
      else taken

  unfoldable pub is_pod_updated : Pod → Pod → Bool
  unfolding strip
  is_pod_updated old new = not (env.deep_equal (strip old) (strip new))

  -- Adds the pod to the active queue and, if that works, wakes Pop.
  unfoldable pub activate : PriorityQueue → QueuedPodInfo → Run (PriorityQueue × Option QueueError)
  unfolding add_active broadcast
  activate p info = add_active p info >>= λ (q, e). elim e [
    | some err ↦ failed q err
    | none ↦ ok (broadcast q, none)
  ]

  -- Update for a pod that is in the active queue.
  unfoldable pub update_active :
      PriorityQueue → QueuedPodInfo → Pod → Pod → Run (PriorityQueue × Option QueueError)
  unfolding add_active update_pod
  update_active p info old new =
      add_active (record p { nominator = update_nominated_pod p.nominator old new })
        (update_pod info new)
      >>= λ (q, e). elim e [ some err ↦ failed q err | none ↦ ok (q, none) ]

  -- Update for a pod that is in the backoff queue.
  unfoldable pub update_backoff :
      PriorityQueue → QueuedPodInfo → Pod → Pod → Run (PriorityQueue × Option QueueError)
  unfolding delete_backoff activate update_pod
  update_backoff p info old new =
      delete_backoff (record p { nominator = update_nominated_pod p.nominator old new }) info
      >>= λ (q, _). activate q (update_pod info new)

  -- Update for a pod that is in the unschedulable queue.
  unfoldable pub update_unschedulable :
      PriorityQueue → QueuedPodInfo → Pod → Pod → Run (PriorityQueue × Option QueueError)
  unfolding delete_unschedulable activate update_pod is_pod_updated
  update_unschedulable p info old new =
      let q = record p { nominator = update_nominated_pod p.nominator old new } in
      if is_pod_updated old new
      then activate (delete_unschedulable q info.pod) (update_pod info new)
      else ok (
        record q {
          unschedulable_q = Unschedulable.add_or_update q.unschedulable_q (update_pod info new);
        },
        none,
      )

  -- Update for a pod that is in no queue.
  unfoldable pub update_new : PriorityQueue → Pod → ℤ → Run (PriorityQueue × Option QueueError)
  unfolding add_active broadcast
  update_new p new now = add_active p (new_queued_pod_info now new) >>= λ (q, e). elim e [
    | some err ↦ failed q err
    | none ↦ ok (broadcast (record q { nominator = Nominator.add q.nominator new "" }), none)
  ]

  -- The part of Update below the test for oldPod. UpdateNominatedPod dereferences a nil oldPod.
  unfoldable pub update_rest :
      PriorityQueue → Option Pod → Pod → ℤ → Run (PriorityQueue × Option QueueError)
  unfolding update_unschedulable update_new
  update_rest p old new now = elim (Unschedulable.get p.unschedulable_q new) [
    | some info ↦ elim old [ none ↦ panic | some o ↦ update_unschedulable p info o new ]
    | none ↦ update_new p new now
  ]

  unfoldable pub update :
      PriorityQueue → Option Pod → Pod → ℤ → Run (PriorityQueue × Option QueueError)
  unfolding update_rest update_active update_backoff
  update p none new now = update_rest p none new now
  update p (some old) new now =
      let info = new_queued_pod_info_no_timestamp old in
      elim (in_active p info) [
        | some a ↦ update_active p a old new
        | none ↦ elim (in_backoff p info) [
          | some b ↦ update_backoff p b old new
          | none ↦ update_rest p (some old) new now
        ]
      ]

  unfoldable pub delete : PriorityQueue → Pod → Run PriorityQueue
  unfolding delete_backoff delete_unschedulable
  delete p pod =
      let info = new_queued_pod_info_no_timestamp pod in
      let q = record p { nominator = Nominator.delete p.nominator pod } in
      Heap.delete pod_info_key_func env.less q.active_q info >>= λ (h, e). elim e [
        | none ↦ ok (record q { active_q = h })
        | some err ↦ delete_backoff (record q { active_q = h }) info >>= λ (r, _).
            ok (delete_unschedulable r pod)
      ]

pub pending_pods : PriorityQueue → List Pod
pending_pods p =
    let pods = map (λ (info : QueuedPodInfo). info.pod) in
    pods (Heap.list p.active_q)
    ++ (pods (Heap.list p.pod_backoff_q)
        ++ pods (map (λ (k, info). info) p.unschedulable_q.pod_info_map))

-- A second Close closes a closed channel.
unfoldable pub close : PriorityQueue → Run PriorityQueue
unfolding broadcast
close p = if p.closed then panic else ok (broadcast (record p { closed = true }))

pub num_unschedulable_pods : PriorityQueue → ℕ
num_unschedulable_pods p = length p.unschedulable_q.pod_info_map
