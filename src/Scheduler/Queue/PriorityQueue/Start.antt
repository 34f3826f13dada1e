-- ===== src/Scheduler/Queue/PriorityQueue/Start.antt =====
-- NewPriorityQueue.
use cloud_prophet.Prelude.{◌≡◌, refl, some}
use cloud_prophet.Prelude.Int.{ℤ, pos}
use cloud_prophet.Prelude.Map.{lookup, unique_nil}
use cloud_prophet.Scheduler.Pod.{Pod}
use cloud_prophet.Scheduler.Heap.{get_by_key, new_with_recorder}
use cloud_prophet.Scheduler.Heap.Spec
use cloud_prophet.Scheduler.Queue.Backoff.{BackoffConfig, pods_compare_backoff_completed}
use cloud_prophet.Scheduler.Queue.Unschedulable.{new_unschedulable_pods_map}
use cloud_prophet.Scheduler.Queue.Nominator.Laws.{new_pod_nominator-IsConsistent}
use cloud_prophet.Scheduler.Queue.PriorityQueue.{QueueEnv, pod_info_key_func, new_priority_queue}
use cloud_prophet.Scheduler.Queue.PriorityQueue.Invariant.{IsValid}

first : {a b : ℤ} → some a ≡ some b → b ≡ a
first e = cc

-- A new queue is valid.
pub new_priority_queue-IsValid :
    (env : QueueEnv) (Named : Pod → Type 0) (c : BackoffConfig)
    → IsValid env Named (new_priority_queue c)
unfolding new_priority_queue new_with_recorder get_by_key lookup new_unschedulable_pods_map
new_priority_queue-IsValid env Named c = record {
  parts = record {
    active =
        Spec.new_with_recorder-IsValid (pod_info_key_func env) env.less (some (pos 0))
          λ n e. first e;
    backoff =
        Spec.new_with_recorder-IsValid (pod_info_key_func env) (pods_compare_backoff_completed c)
          (some (pos 0)) λ n e. first e;
    unschedulable = record {
      keyed = λ k i e. absurd (cc);
      distinct = unique_nil;
      gauged = λ n e. first e;
    };
    nominated = new_pod_nominator-IsConsistent;
    named_active = λ k i e. absurd (cc);
    named_backoff = λ k i e. absurd (cc);
    named_waiting = λ k i e. absurd (cc);
  };
  apart = record {
    active_backoff = λ k a e. refl;
    active_waiting = λ k a e. refl;
    backoff_waiting = λ k a e. refl;
  };
}
