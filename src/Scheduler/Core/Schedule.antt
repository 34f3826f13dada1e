-- ===== src/Scheduler/Core/Schedule.antt =====
-- scheduler/core/generic_scheduler.go: Schedule, with the extenders. An extender is a service that the
-- scheduler calls (framework.Extender); the cache is read by its snapshot, the argument `all_nodes`.
pub mod Host
use cloud_prophet.Prelude.{
  ℕ, suc, ◌+◌, String, Bool, true, false, not, ◌&&◌, ◌||◌, Option, none, some, List, [], ◌∷◌, ◌++◌,
  is_empty, length, if◌then◌else◌, string_eq, Run, ok, panic, or_panic, ◌>>=◌, Result, value, error,
}
use cloud_prophet.Prelude.Int.{ℤ, pos, pos_part, wrap64, quot, ◌+ℤ◌, ◌*ℤ◌}
use cloud_prophet.Prelude.Map.{Map, lookup, insert}
use cloud_prophet.Scheduler.Pod.{Pod}
use cloud_prophet.Scheduler.Node.{Node}
use cloud_prophet.Scheduler.NodeInfo.{NodeInfo}
use cloud_prophet.Scheduler.Framework.Status.{
  Code, Status, NodeToStatusMap, is_success, is_unschedulable, message, new_status,
}
use cloud_prophet.Scheduler.Framework.Plugins.{NodeScore, NodeScoreList, FrameworkImpl}
use cloud_prophet.Scheduler.Framework.Runtime.{
  run_pre_filter_plugins, run_pre_score_plugins, has_filter_plugins, has_score_plugins,
}
use cloud_prophet.Scheduler.Framework.Scoring.{run_score_plugins}
use cloud_prophet.Scheduler.Core.Scores.{
  equal_scores, sum_scores, select_host, num_feasible_nodes_to_find,
}
use cloud_prophet.Scheduler.Core.Filtering.{
  SnapshotNode, Found, pod_passes_filters_on_node, find_nodes_that_pass_filters,
}

-- framework.Extender, as far as it is called here. Filter gives the nodes that are left and a message for
-- each other one; Prioritize gives a score for each host, and its weight.
pub record Extender : Type 0 where
  pub is_interested : Pod → Bool
  pub is_ignorable : Bool
  pub filter : Pod → List Node → Result String (List Node × Map String String)
  pub prioritize : Pod → List Node → Result String (List (String × ℤ) × ℤ)

-- AppendReason, or a new status. It panics on a nil status.
unfoldable pub note_failed : Map String String → NodeToStatusMap → Run NodeToStatusMap
note_failed [] statuses = ok statuses
note_failed ((name, msg) ∷ failed) statuses =
    elim (lookup name statuses) as (λ _. Run NodeToStatusMap) [
      | none ↦ note_failed failed (insert name (new_status Code.unschedulable (msg ∷ [])) statuses)
      | some none ↦ panic
      | some (some s) ↦
          note_failed failed
            (insert name (some (record s { reasons = s.reasons ++ msg ∷ [] })) statuses)
    ]

-- The nodes or the error, and the statuses.
unfoldable pub find_nodes_that_pass_extenders :
    Pod
    → List Extender
    → List Node
    → NodeToStatusMap
    → Run (Result String (List Node) × NodeToStatusMap)
unfolding note_failed
find_nodes_that_pass_extenders pod [] nodes statuses = ok (value nodes, statuses)
find_nodes_that_pass_extenders pod (e ∷ es) nodes statuses =
    let skip = find_nodes_that_pass_extenders pod es nodes statuses in
    if is_empty nodes
    then ok (value nodes, statuses)
    else if e.is_interested pod
    then elim (e.filter pod nodes) as (λ _. Run (Result String (List Node) × NodeToStatusMap)) [
      | error err ↦ if e.is_ignorable then skip else ok (error err, statuses)
      | value (left, failed) ↦
          note_failed failed statuses >>= find_nodes_that_pass_extenders pod es left
    ]
    else skip

-- combinedScores[host] += score * weight, where a missing host has 0.
unfoldable pub combine : List (String × ℤ) → ℤ → Map String ℤ → Map String ℤ
combine [] weight combined = combined
combine ((host, score) ∷ list) weight combined =
    let before = elim (lookup host combined) as (λ _. ℤ) [ none ↦ pos 0 | some s ↦ s ] in
    combine list weight (insert host (wrap64 (before +ℤ wrap64 (score *ℤ weight))) combined)

-- The Prioritize calls; one that fails is passed over.
unfoldable pub combined_scores : Pod → List Node → List Extender → Map String ℤ → Map String ℤ
unfolding combine
combined_scores pod nodes [] combined = combined
combined_scores pod nodes (e ∷ es) combined =
    let skip = combined_scores pod nodes es combined in
    if e.is_interested pod
    then elim (e.prioritize pod nodes) as (λ _. Map String ℤ) [
      | error err ↦ skip
      | value (list, weight) ↦ combined_scores pod nodes es (combine list weight combined)
    ]
    else skip

-- `scale` is MaxNodeScore / MaxExtenderPriority.
unfoldable pub add_combined : ℤ → Map String ℤ → NodeScoreList → NodeScoreList
add_combined scale combined [] = []
add_combined scale combined (s ∷ ss) =
    let extra = elim (lookup s.name combined) as (λ _. ℤ) [ none ↦ pos 0 | some e ↦ e ] in
    record s { score = wrap64 (s.score +ℤ wrap64 (extra *ℤ scale)) }
    ∷ add_combined scale combined ss

-- MaxExtenderPriority of k8s.io/kube-scheduler is an argument.
unfoldable pub with_extenders : ℕ → Pod → List Node → List Extender → NodeScoreList → NodeScoreList
unfolding combined_scores add_combined
with_extenders max_extender_priority pod nodes es totals =
    if is_empty es
    then totals
    else add_combined (quot (pos 100) max_extender_priority) (combined_scores pod nodes es [])
        totals

-- What Schedule reads beside the pod. `draw` answers the random numbers of selectHost, `order` is the
-- order in which the workers finish, and `nominated_pods_for_node` is the nominator's.
pub record SchedulerEnv : Type 0 where
  pub extenders : List Extender
  pub all_nodes : List SnapshotNode
  pub percentage_of_nodes_to_score : ℤ
  pub next_start_node_index : ℕ
  pub nominated_pods_for_node : String → List Pod
  pub order : List ℕ
  pub draw : ℕ → Bool
  pub show_int : ℤ → String
  pub max_extender_priority : ℕ
  pub clone_generation : ℤ

pub data ScheduleError : Type 0 where
  failed : String → ScheduleError
  no_nodes_available : ScheduleError
  fit_error : ℕ → NodeToStatusMap → ScheduleError

pub record ScheduleResult : Type 0 where
  pub suggested_host : String
  pub evaluated_nodes : ℕ
  pub feasible_nodes : ℕ

module _ {S : Type 0} (env : SchedulerEnv) (f : FrameworkImpl S) (pod : Pod) where
  -- The totals of the nodes, or the error.
  unfoldable pub prioritize_nodes : List Node → S → Run (Result String NodeScoreList)
  unfolding with_extenders
  prioritize_nodes nodes state =
      let (pre_score, state') = run_pre_score_plugins f pod nodes state in
      if is_empty env.extenders && not (has_score_plugins f)
      then ok (value (equal_scores nodes))
      else if is_success pre_score
      then elim (run_score_plugins env.show_int f state' pod nodes)
          as (λ _. Run (Result String NodeScoreList)) [
            | error status ↦ ok (error (message status))
            | value m ↦ sum_scores 0 nodes m >>= λ totals.
                ok (value (with_extenders env.max_extender_priority pod nodes env.extenders totals))
          ]
      else ok (error (message pre_score))

  -- The status of a failed PreFilter, for every node.
  unfoldable pub same_status : Option Status → List SnapshotNode → NodeToStatusMap
  same_status s [] = []
  same_status s (n ∷ ns) = insert n.node.name s (same_status s ns)

  abbrev no_nodes : List Node
  no_nodes = []

  -- What findNodesThatFitPod gives: the nodes or the error, the statuses, and the start of the next search.
  unfoldable pub find_nodes_that_fit_pod : S → Run (Found × S)
  unfolding same_status
  find_nodes_that_fit_pod state =
      let (s, state') = run_pre_filter_plugins f pod state in
      let start = env.next_start_node_index in
      let check =
        pod_passes_filters_on_node f env.clone_generation pod env.nominated_pods_for_node state' in
      let num =
        num_feasible_nodes_to_find env.percentage_of_nodes_to_score (pos (length env.all_nodes)) in
      if is_success s
      then (find_nodes_that_pass_filters (has_filter_plugins f) check env.all_nodes start
            (pos_part num) env.order []
          >>= λ found. elim (found.nodes) as (λ _. Run (Found × S)) [
            | error e ↦ ok (found, state')
            | value nodes ↦
                find_nodes_that_pass_extenders pod env.extenders nodes found.statuses
                >>= λ (left, statuses).
                    ok (record found { nodes = left; statuses = statuses }, state')
          ])
      else ok (
        record {
          nodes = if is_unschedulable s then value no_nodes else error (message s);
          statuses = same_status s env.all_nodes;
          next_start = start;
        },
        state',
      )

  -- Schedule from the feasible nodes on.
  unfoldable pub pick_node :
      List Node → NodeToStatusMap → S → Run (Result ScheduleError ScheduleResult)
  unfolding prioritize_nodes
  pick_node [] statuses state = ok (error (fit_error (length env.all_nodes) statuses))
  pick_node (only ∷ []) statuses state = ok (
      value (record {
        suggested_host = only.name;
        evaluated_nodes = 1 + length statuses;
        feasible_nodes = 1;
      }))
  pick_node (one ∷ two ∷ nodes) statuses state =
      let feasible = one ∷ two ∷ nodes in
      prioritize_nodes feasible state >>= λ priorities.
      elim priorities as (λ _. Run (Result ScheduleError ScheduleResult)) [
        | error e ↦ ok (error (failed e))
        | value list ↦
            elim (select_host env.draw list) as (λ _. Run (Result ScheduleError ScheduleResult)) [
              | none ↦ ok (error (failed "empty priorityList"))
              | some host ↦ ok (
                  value (record {
                    suggested_host = host;
                    evaluated_nodes = length feasible + length statuses;
                    feasible_nodes = length feasible;
                  }))
            ]
      ]

  -- Schedule; `basic_checks` is what podPassesBasicChecks returned.
  unfoldable pub schedule : Option String → S → Run (Result ScheduleError ScheduleResult)
  unfolding find_nodes_that_fit_pod pick_node
  schedule (some e) state = ok (error (failed e))
  schedule none state =
      if is_empty env.all_nodes
      then ok (error no_nodes_available)
      else (find_nodes_that_fit_pod state >>= λ (found, state').
          elim (found.nodes) as (λ _. Run (Result ScheduleError ScheduleResult)) [
            | error e ↦ ok (error (failed e))
            | value nodes ↦ pick_node nodes found.statuses state'
          ])
