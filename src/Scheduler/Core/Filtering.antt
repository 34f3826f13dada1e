-- ===== src/Scheduler/Core/Filtering.antt =====
-- scheduler/core/generic_scheduler.go: which nodes fit a pod. A CycleState and a NodeInfo are values here,
-- so Clone is the value itself. `generation` is the generation that AddPod gives to the clone, which
-- nothing reads.
pub mod Nominated
pub mod Checking
use cloud_prophet.Prelude.{
  ℕ, zero, suc, ◌+◌, ◌%◌, String, Bool, true, false, not, ◌&&◌, ◌||◌, Option, none, some, List, [],
  ◌∷◌, ◌++◌, get_elem?, is_empty, length, ltb, leb, if◌then◌else◌, string_eq, ◌===◌, Run, ok, panic,
  or_panic, ◌>>=◌, Result, value, error, and_then,
}
use cloud_prophet.Prelude.Int.{ℤ, leb_ℤ}
use cloud_prophet.Prelude.Map.{Map, lookup, insert}
use cloud_prophet.Scheduler.Pod.{Pod, get_pod_priority}
use cloud_prophet.Scheduler.Node.{Node}
use cloud_prophet.Scheduler.NodeInfo.{NodeInfo, add_pod}
use cloud_prophet.Scheduler.Framework.Status.{
  Code, Status, NodeToStatusMap, is_success, is_unschedulable, as_error, merge, new_status,
}
use cloud_prophet.Scheduler.Framework.Plugins.{FrameworkImpl}
use cloud_prophet.Scheduler.Framework.Runtime.{
  run_pre_filter_extension_add_pod, run_filter_plugins, run_pre_filter_plugins, has_filter_plugins,
}

-- A NodeInfo of the snapshot with its node, which is never nil there.
pub record SnapshotNode : Type 0 where
  pub node : Node
  pub info : NodeInfo

-- A result `(fits, status, err)`.
pub record Verdict : Type 0 where
  pub fits : Bool
  pub status : Option Status
  pub err : Option String

-- The pods that addNominatedPods adds.
abbrev pub yields_to : Pod → Pod → Bool
yields_to pod p = leb_ℤ (get_pod_priority pod) (get_pod_priority p) && not (p.uid === pod.uid)

-- The loop of addNominatedPods; `added` is podsAdded.
abbrev pub is_broken : Option Status → Bool
is_broken status = if is_success status then false else not (is_unschedulable status)

module _ {S : Type 0} (f : FrameworkImpl S) (pod : Pod) where
  -- One run of the filters in the loop of PodPassesFiltersOnNode.
  unfoldable pub filter_once : S → NodeInfo → Run Verdict
  filter_once state info = merge (run_filter_plugins f state pod info) >>= λ status. ok (
      if is_broken status
      then record { fits = false; status = status; err = as_error status }
      else record { fits = is_success status; status = status; err = none })

module _ {S : Type 0} (f : FrameworkImpl S) (generation : ℤ) (pod : Pod) where
  unfoldable pub add_nominated :
      List Pod → Bool → S → NodeInfo → Result String (Bool × S × NodeInfo)
  add_nominated [] added state info = value (added, state, info)
  add_nominated (p ∷ ps) added state info =
      let info' = add_pod info p generation in
      let (status, state') = run_pre_filter_extension_add_pod f pod p info' state in
      let rest = add_nominated ps added state info in
      let more = add_nominated ps true state' info' in
      if yields_to pod p
      then elim (as_error status) as (λ _. Result String (Bool × S × NodeInfo)) [
        | some e ↦ error e
        | none ↦ more
      ]
      else rest

  -- No node has nominated pods where it has no name.
  unfoldable pub add_nominated_pods :
      (String → List Pod) → S → NodeInfo → Result String (Bool × S × NodeInfo)
  unfolding add_nominated
  add_nominated_pods nominated_pods_for_node state info =
      elim (info.node) as (λ _. Result String (Bool × S × NodeInfo)) [
        | none ↦ value (false, state, info)
        | some node ↦ add_nominated (nominated_pods_for_node node.name) false state info
      ]

  unfoldable pub pod_passes_filters_on_node : (String → List Pod) → S → NodeInfo → Run Verdict
  unfolding add_nominated_pods filter_once
  pod_passes_filters_on_node nominated_pods_for_node state info =
      elim (add_nominated_pods nominated_pods_for_node state info) as (λ _. Run Verdict) [
        | error e ↦ ok (record { fits = false; status = none; err = some e })
        | value (added, state', info') ↦ filter_once f pod state' info' >>= λ first.
            let second = filter_once f pod state info in
            if added && first.fits then second else ok first
      ]

-- What the concurrent checkNode calls share: the feasible nodes in their order of arrival, the statuses of
-- the nodes that do not fit, the first error, and whether the context is cancelled.
pub record Checks : Type 0 where
  pub feasible : List Node
  pub statuses : NodeToStatusMap
  pub first_error : Option String
  pub cancelled : Bool

unfoldable pub note_error : String → Option String → Option String
note_error e none = some e
note_error e (some earlier) = some earlier

-- checkNode once it has the verdict on the node.
unfoldable pub note_verdict : ℕ → Node → Verdict → Checks → Checks
unfolding note_error
note_verdict num_nodes_to_find node v c = elim (v.err) as (λ _. Checks) [
  | some e ↦ record c { first_error = note_error e c.first_error; cancelled = true }
  | none ↦
      if v.fits
      then if ltb num_nodes_to_find (length c.feasible + 1)
        then record c { cancelled = true }
        else record c { feasible = c.feasible ++ node ∷ [] }
      else if is_success v.status
      then c
      else record c { statuses = insert node.name v.status c.statuses }
]

-- `check` is PodPassesFiltersOnNode for the pod. The order in which the workers finish is the argument
-- `order`: indices of nodes, counted from the start index.
module _ (check : NodeInfo → Run Verdict) where
  unfoldable pub check_node : List SnapshotNode → ℕ → ℕ → ℕ → Checks → Run Checks
  unfolding note_verdict
  check_node all_nodes start num_nodes_to_find i c =
      or_panic (get_elem? all_nodes ((start + i) % length all_nodes)) >>= λ n.
      check n.info >>= λ v. ok (note_verdict num_nodes_to_find n.node v c)

  unfoldable pub check_nodes : List SnapshotNode → ℕ → ℕ → List ℕ → Checks → Run Checks
  unfolding check_node
  check_nodes all_nodes start num [] c = ok c
  check_nodes all_nodes start num (i ∷ order) c =
      check_node all_nodes start num i c >>= check_nodes all_nodes start num order

abbrev pub no_checks : NodeToStatusMap → Checks
no_checks statuses = record {
  feasible = [];
  statuses = statuses;
  first_error = none;
  cancelled = false;
}

-- The nodes that are taken where no filter is configured: the next `n` ones from the index `i`.
unfoldable pub take_round : List SnapshotNode → ℕ → ℕ → Run (List Node)
take_round all_nodes i zero = ok []
take_round all_nodes i (suc n) = or_panic (get_elem? all_nodes (i % length all_nodes)) >>= λ v.
    take_round all_nodes (suc i) n >>= λ vs. ok (v.node ∷ vs)

-- What findNodesThatPassFilters leaves: the nodes or the error, the statuses, and nextStartNodeIndex.
pub record Found : Type 0 where
  pub nodes : Result String (List Node)
  pub statuses : NodeToStatusMap
  pub next_start : ℕ

abbrev found_or_error : Option String → List Node → Result String (List Node)
found_or_error none nodes = value nodes
found_or_error (some e) nodes = error e

-- The snapshot has at least one node: Schedule returns before this for an empty one.
unfoldable pub find_nodes_that_pass_filters :
    Bool
    → (NodeInfo → Run Verdict)
    → List SnapshotNode
    → ℕ
    → ℕ
    → List ℕ
    → NodeToStatusMap
    → Run Found
unfolding check_nodes take_round
find_nodes_that_pass_filters has_filters check all_nodes start num order statuses =
    if has_filters
    then (check_nodes check all_nodes start num order (no_checks statuses) >>= λ c. ok (record {
      nodes = found_or_error c.first_error c.feasible;
      statuses = c.statuses;
      next_start = (start + (length c.feasible + length c.statuses)) % length all_nodes;
    }))
    else take_round all_nodes start num >>= λ nodes. ok (record {
      nodes = value nodes;
      statuses = statuses;
      next_start = (start + length nodes) % length all_nodes;
    })
