-- ===== src/Tests/QueueTests.antt =====
-- Scheduling queues of a few pods under scheduler/internal/queue/scheduling_queue.go.
use cloud_prophet.Prelude.{
  ℕ, ◌*◌, ◌^◌, ◌-◌, ◌<◌, ◌≡◌, refl, String, true, false, none, some, [], map, arith, string_eq,
  Returns, Result, value, run_value, Returns-run_value,
}
use Prim.Native.Nat.{min}
use cloud_prophet.Prelude.Int.{pos}
use cloud_prophet.Prelude.Map.{lookup, insert, unique_nil}
use cloud_prophet.Scheduler.Pod.{Pod, QueuedPodInfo, get_pod_full_name}
use cloud_prophet.Scheduler.Heap.{Heap, get_by_key}
use cloud_prophet.Scheduler.Heap
use cloud_prophet.Scheduler.Heap.Container
use cloud_prophet.Scheduler.Heap.Storage
use cloud_prophet.Scheduler.Queue.Backoff.{
  BackoffConfig, calculate_backoff_duration, get_backoff_time, pods_compare_backoff_completed,
}
use cloud_prophet.Scheduler.Queue.Backoff
use cloud_prophet.Scheduler.Queue.PrioritySort
use cloud_prophet.Scheduler.Queue.Nominator.{
  NominatedPodMap, new_pod_nominator, nominated_pods_for_node,
}
use cloud_prophet.Scheduler.Queue.Nominator
use cloud_prophet.Scheduler.Queue.Nominator.Laws
use cloud_prophet.Scheduler.Queue.Unschedulable
use cloud_prophet.Scheduler.Queue.PriorityQueue.{
  PriorityQueue, QueueEnv, new_priority_queue, add, pop, delete, park,
  add_unschedulable_if_not_present, move_all_to_active_or_backoff_queue, new_queued_pod_info,
}
use cloud_prophet.Scheduler.Queue.PriorityQueue.Invariant.{EnvLaws, IsValid, waiting, put, gone}
use cloud_prophet.Scheduler.Queue.PriorityQueue.Start.{new_priority_queue-IsValid}
use cloud_prophet.Scheduler.Queue.PriorityQueue.Add.{add-IsValid}
use cloud_prophet.Scheduler.Queue.PriorityQueue.Remove.{
  TakesHead, pop-TakesHead, Deleted, delete-Deleted,
}
use cloud_prophet.Scheduler.Queue.PriorityQueue.MoveAll.{MoveRequest, move_all-MoveRequest}
use cloud_prophet.Scheduler.Queue.PriorityQueue.Park.{park-Parked}
use cloud_prophet.Scheduler.Queue.PriorityQueue.ParkAll.{Outcome, add_unschedulable-Outcome}

abbrev pub pod_named : String → Pod
pod_named s = record {
  name = s;
  namespace = "default";
  uid = s;
  labels = 0;
  resource_version = "1";
  generation = pos 0;
  other_meta = 0;
  spec = record {
    node_name = "";
    affinity = none;
    containers = [];
    init_containers = [];
    overhead = none;
    other_spec = 0;
  };
  status = record { nominated_node_name = ""; other_status = 0 };
}

abbrev info_of : String → ℕ → ℕ → QueuedPodInfo
info_of s t n = record {
  pod = pod_named s;
  timestamp = pos t;
  attempts = n;
  initial_attempt_timestamp = pos t;
}

abbrev env : QueueEnv
env = record {
  meta_namespace_key_func = λ p. value (get_pod_full_name p);
  less = PrioritySort.less;
  deep_equal = λ a b. true;
  as_selector = λ s. some s;
  matches = λ a b. false;
}

abbrev Named : Pod → Type 0
Named p = Unit {0}

abbrev id_value : String → Result String String
id_value a = value a

value_inj : {a b : String} → (id_value a) ≡ id_value b → a ≡ b
value_inj e = cc

laws : EnvLaws env Named
laws = record {
  total = λ p n. (get_pod_full_name p, refl);
  same_key = λ p q m n e. value_inj e;
  same_name = λ p q m n e. cc;
  ordered = PrioritySort.less-IsStrictWeak;
}

abbrev config : BackoffConfig
config = record { initial = pos 1; max = pos 10 }

abbrev empty : PriorityQueue
empty = new_priority_queue config

empty-IsValid : IsValid env Named empty
empty-IsValid = new_priority_queue-IsValid env Named config

-- A queue with one pod to schedule, and one with a pod that waits.
abbrev one : PriorityQueue
one = (run_value (add env empty (pod_named "a") (pos 5)) (empty, none)).0

one_lem : IsValid env Named one
unfolding get_pod_full_name
one_lem =
    (Returns-run_value
      (add-IsValid env Named laws empty (pod_named "a") (pos 5) "a_default" empty-IsValid tt refl)
      (empty, none)).1

abbrev parked_one : PriorityQueue
parked_one = (run_value (park env empty (info_of "b" 3 1) (pos 0)) (empty, none)).0

parked_lem : IsValid env Named parked_one
unfolding new_priority_queue Heap.new_with_recorder get_by_key lookup
    Unschedulable.new_unschedulable_pods_map get_pod_full_name
parked_lem =
    (Returns-run_value
      (park-Parked env Named laws empty (info_of "b" 3 1) "b_default" empty-IsValid tt refl refl
        refl refl (pos 0))
      (empty, none)).1.valid

add-IsValid_example :
    Returns
      (λ (q, e).
        (e ≡ none)
        × IsValid env Named q
        × ((j : String)
            → get_by_key q.active_q j
              ≡ put env Named "b_default"
                  (new_queued_pod_info (pos 9) (pod_named "b"))
                  (get_by_key parked_one.active_q)
                  j)
        × ((j : String)
            → get_by_key q.pod_backoff_q j
              ≡ gone env Named "b_default" (get_by_key parked_one.pod_backoff_q) j)
        × ((n : String)
            → waiting env Named q n
              ≡ gone env Named
                  (get_pod_full_name (pod_named "b"))
                  (waiting env Named parked_one)
                  n))
      (add env parked_one (pod_named "b") (pos 9))
unfolding get_pod_full_name
add-IsValid_example =
    add-IsValid env Named laws parked_one (pod_named "b") (pos 9) "b_default" parked_lem tt refl

one_len : 0 < Heap.len one.active_q
unfolding add new_priority_queue Heap.new_with_recorder Heap.add lookup insert Heap.len Storage.len
    Container.push Storage.push Container.up_loop Heap.delete Unschedulable.get
    Unschedulable.new_unschedulable_pods_map
one_len = omega arith

pop-TakesHead_example : Returns (λ (q, r). TakesHead env Named laws one q r) (pop env one)
pop-TakesHead_example = pop-TakesHead env Named laws one one_lem one_len

delete-Deleted_example :
    Returns
      (Deleted env Named laws one (pod_named "a") "a_default")
      (delete env one (pod_named "a"))
unfolding get_pod_full_name
delete-Deleted_example =
    delete-Deleted env Named laws one (pod_named "a") "a_default" one_lem tt refl

move_all-MoveRequest_example :
    Returns
      (MoveRequest env Named laws parked_one
        (map (λ (k, info). info) parked_one.unschedulable_q.pod_info_map))
      (move_all_to_active_or_backoff_queue env parked_one λ i. pos 4)
move_all-MoveRequest_example = move_all-MoveRequest env Named laws parked_one parked_lem λ i. pos 4

key_b : env.meta_namespace_key_func (pod_named "b") ≡ value "b_default"
unfolding get_pod_full_name
key_b = refl

add_unschedulable-Outcome_example :
    Returns
      (λ (q, r).
        Outcome env Named laws parked_one
          (info_of "b" 3 1)
          "b_default"
          (pos 8)
          parked_lem
          tt
          key_b
          (pos 0)
          q
          r)
      (add_unschedulable_if_not_present env parked_one (info_of "b" 3 1) (pos 0) (pos 8))
add_unschedulable-Outcome_example =
    add_unschedulable-Outcome env Named laws parked_one (info_of "b" 3 1) "b_default" (pos 8)
      parked_lem tt key_b (pos 0)

calculate_backoff_duration_lem_example :
    calculate_backoff_duration config (info_of "a" 5 4) ≡ pos (min (1 * 2 ^ (4 - 1)) 10)
calculate_backoff_duration_lem_example =
    Backoff.calculate_backoff_duration_lem config (info_of "a" 5 4) 1 10 refl refl (omega arith)
      (omega arith)

-- A pod nominated to a node.
abbrev nominated : NominatedPodMap
nominated = Nominator.add new_pod_nominator (pod_named "a") "n1"

nominated_lem : Laws.IsConsistent nominated
nominated_lem =
    Laws.add-IsConsistent new_pod_nominator (pod_named "a") "n1" Laws.new_pod_nominator-IsConsistent

nominated_at : lookup "a" nominated.nominated_pod_to_node ≡ some "n1"
unfolding Nominator.target
nominated_at =
    (Laws.add_nominates new_pod_nominator (pod_named "a") "n1" Laws.new_pod_nominator-IsConsistent
      refl).0

update_nominated_pod-reserved_example :
    lookup "a"
      (Nominator.update_nominated_pod nominated
        (pod_named "a")
        (pod_named "a")).nominated_pod_to_node
    ≡ some "n1"
update_nominated_pod-reserved_example =
    Laws.update_nominated_pod-reserved nominated (pod_named "a") (pod_named "a") "n1" nominated_lem
      refl refl nominated_at refl

update_nominated_pod-IsConsistent_example :
    Laws.IsConsistent (Nominator.update_nominated_pod nominated (pod_named "a") (pod_named "b"))
update_nominated_pod-IsConsistent_example =
    Laws.update_nominated_pod-IsConsistent nominated (pod_named "a") (pod_named "b") nominated_lem

-- The map of the unschedulable pods.
abbrev parked_pods : Unschedulable.UnschedulablePodsMap
parked_pods =
    Unschedulable.add_or_update (Unschedulable.new_unschedulable_pods_map none) (info_of "a" 3 1)

no_pods_lem : Unschedulable.IsValid (Unschedulable.new_unschedulable_pods_map none)
unfolding Unschedulable.new_unschedulable_pods_map lookup
no_pods_lem = record {
  keyed = λ k i e. absurd (cc);
  distinct = unique_nil;
  gauged = λ n e. absurd (cc);
}
