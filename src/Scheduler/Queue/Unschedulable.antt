-- ===== src/Scheduler/Queue/Unschedulable.antt =====
-- scheduler/internal/queue/scheduling_queue.go: UnschedulablePodsMap.
use cloud_prophet.Prelude.{
  ◌≡◌, sym, ◌∙◌, ap, String, Option, none, some, [], arith, string_eq, length, Option-cases, inl,
  inr,
}
use cloud_prophet.Prelude.Int.{ℤ, pos}
use cloud_prophet.Prelude.Map.{
  Map, lookup, insert, IsUnique, lookup-insert, lookup-delete, insert-IsUnique, delete-IsUnique,
  length-insert_new, length-insert_old, length-delete, delete-absent,
}
use cloud_prophet.Prelude.Map
use cloud_prophet.Scheduler.Pod.{Pod, QueuedPodInfo, get_pod_full_name}
use cloud_prophet.Scheduler.Heap.{MetricRecorder, inc, dec}
use cloud_prophet.Scheduler.Heap
use cloud_prophet.Scheduler.Heap.Spec.{inc_gauge, dec_gauge}

-- keyFunc is GetPodFullName.
pub record UnschedulablePodsMap : Type 0 where
  pub pod_info_map : Map String QueuedPodInfo
  pub metric_recorder : MetricRecorder

unfoldable pub new_unschedulable_pods_map : MetricRecorder → UnschedulablePodsMap
new_unschedulable_pods_map r = record { pod_info_map = []; metric_recorder = r }

unfoldable pub get : UnschedulablePodsMap → Pod → Option QueuedPodInfo
get u pod = lookup (get_pod_full_name pod) u.pod_info_map

unfoldable pub add_or_update : UnschedulablePodsMap → QueuedPodInfo → UnschedulablePodsMap
add_or_update u info =
    let id = get_pod_full_name info.pod in
    record {
      pod_info_map = insert id info u.pod_info_map;
      metric_recorder = elim (lookup id u.pod_info_map) [
        | none ↦ inc u.metric_recorder
        | some old ↦ u.metric_recorder
      ];
    }

unfoldable pub delete : UnschedulablePodsMap → Pod → UnschedulablePodsMap
delete u pod =
    let id = get_pod_full_name pod in
    record {
      pod_info_map = Map.delete id u.pod_info_map;
      metric_recorder = elim (lookup id u.pod_info_map) [
        | none ↦ u.metric_recorder
        | some old ↦ dec u.metric_recorder
      ];
    }

pub clear : UnschedulablePodsMap → UnschedulablePodsMap
clear u = record { pod_info_map = []; metric_recorder = Heap.clear u.metric_recorder }

-- Every entry stands under the full name of its pod, once, and the gauge counts the entries.
pub record IsValid (u : UnschedulablePodsMap) : Type 0 where
  pub keyed :
      (k : String) (info : QueuedPodInfo)
      → lookup k u.pod_info_map ≡ some info
      → get_pod_full_name info.pod ≡ k
  pub distinct : IsUnique u.pod_info_map
  pub gauged : (n : ℤ) → u.metric_recorder ≡ some n → n ≡ pos (length u.pod_info_map)

-- addOrUpdate keeps the map valid, and its gauge right, for a new pod and for one that is there.
pub add_or_update-IsValid :
    (u : UnschedulablePodsMap) (info : QueuedPodInfo) → IsValid u → IsValid (add_or_update u info)
unfolding add_or_update
add_or_update-IsValid u info v =
    let id = get_pod_full_name info.pod in
    record {
      keyed = λ k i e.
          ground
            (arith, lookup-insert id k info u.pod_info_map, v.keyed k i, string_eq.beq_iff id k);
      distinct = insert-IsUnique id info v.distinct;
      gauged = λ n e. elim (Option-cases (lookup id u.pod_info_map)) [
        | inl new ↦
            inc_gauge u.metric_recorder v.gauged (length-insert_new id info u.pod_info_map new) n
              (ground (arith, new, e))
        | inr (old, there) ↦
            v.gauged n (ground (arith, there, e))
            ∙ ap pos (sym (length-insert_old id info old u.pod_info_map there))
      ];
    }

-- delete keeps the map valid, and its gauge right, whether or not the pod is there.
pub delete-IsValid : (u : UnschedulablePodsMap) (pod : Pod) → IsValid u → IsValid (delete u pod)
unfolding delete
delete-IsValid u pod v =
    let id = get_pod_full_name pod in
    record {
      keyed = λ k i e. ground (arith, lookup-delete id k u.pod_info_map, v.keyed k i);
      distinct = delete-IsUnique id v.distinct;
      gauged = λ n e. elim (Option-cases (lookup id u.pod_info_map)) [
        | inl absent ↦
            v.gauged n (ground (arith, absent, e))
            ∙ ap (λ m. pos (length m)) (sym (delete-absent id u.pod_info_map absent))
        | inr (old, there) ↦
            dec_gauge u.metric_recorder v.gauged (sym (length-delete id old v.distinct there)) n
              (ground (arith, there, e))
      ];
    }
