-- ===== src/Tests/CoreTests.antt =====
-- A few nodes under scheduler/core/generic_scheduler.go.
use cloud_prophet.Prelude.{
  ℕ, ◌+◌, ◌*◌, ◌≤◌, ◌<◌, ◌≡◌, refl, sym, String, true, false, none, some, List, [], ◌∷◌, map, take,
  string_eq, Returns, value, OnValue, arith,
}
use cloud_prophet.Prelude.Int.{pos, ◌≤ℤ◌}
use cloud_prophet.Prelude.Map.{lookup, unique_nil, unique_cons}
use cloud_prophet.Scheduler.Pod.{Pod}
use cloud_prophet.Scheduler.Node.{Node}
use cloud_prophet.Scheduler.NodeInfo.{NodeInfo, new_node_info}
use cloud_prophet.Scheduler.Framework.Plugins.{NodeScore, NodeScoreList}
use cloud_prophet.Scheduler.Framework.Runtime.{has_filter_plugins, run_pre_filter_plugins}
use cloud_prophet.Scheduler.Framework.Scoring.{PluginToNodeScores}
use cloud_prophet.Scheduler.Framework.Scoring.Bounds.{AllWithin, within_nil, within_cons}
use cloud_prophet.Scheduler.Framework.Scoring.Weighted.{IsWeighted}
use cloud_prophet.Scheduler.Core.Scores.{sum_scores, select_host, num_feasible_nodes_to_find}
use cloud_prophet.Scheduler.Core.Sums.{sum_scores-Total}
use cloud_prophet.Scheduler.Core.Selection.{Chosen, select_host-Chosen, num_feasible-Enough}
use cloud_prophet.Scheduler.Core.Filtering.{
  SnapshotNode, pod_passes_filters_on_node, find_nodes_that_pass_filters,
}
use cloud_prophet.Scheduler.Core.Filtering.Nominated.{
  Decides, competitors, fits_with, pod_passes-Decides,
}
use cloud_prophet.Scheduler.Core.Filtering.Checking.{kept, node_fits, find_nodes-First}
use cloud_prophet.Scheduler.Core.Schedule.{SchedulerEnv, schedule}
use cloud_prophet.Scheduler.Core.Schedule.Host.{IsHostOf, candidates, schedule-IsHostOf}
use cloud_prophet.Tests.QueueTests.{pod_named}
use cloud_prophet.Tests.FrameworkTests.{show_int, node_named, small_framework, small_weights}

abbrev snapshot : List SnapshotNode
snapshot =
    record { node = node_named "a"; info = new_node_info (pos 1) }
    ∷ record {
      node = node_named "b";
      info = record (new_node_info (pos 2)) { node = some (node_named "b") };
    }
    ∷ record { node = node_named "c"; info = new_node_info (pos 3) }
    ∷ []

abbrev nominated : String → List Pod
nominated n = pod_named "z" ∷ []

abbrev score_of : String → ℕ → NodeScore
score_of s n = record { name = s; score = pos n }

abbrev two_scores : NodeScoreList
two_scores = score_of "a" 80 ∷ score_of "b" 180 ∷ []

abbrev weighted_scores : PluginToNodeScores
weighted_scores = ("score_by", two_scores) ∷ []

only_entry :
    (k : String) (l : NodeScoreList)
    → lookup k weighted_scores ≡ some l
    → ("score_by" ≡ k) × (two_scores ≡ l)
unfolding lookup
only_entry k l e = ground (arith, string_eq.beq_iff "score_by" k)

weighted_scores-IsWeighted : IsWeighted (("score_by", pos 2) ∷ []) 2 weighted_scores
unfolding lookup
weighted_scores-IsWeighted = record {
  keys_unique = unique_cons refl unique_nil;
  scores_within = λ k l e.
      let (same, list) = only_entry k l e in
      rw (sym same, sym list)
        (within_cons 80 refl (omega arith) (within_cons 180 refl (omega arith) within_nil));
  scores_length = λ k l e. rw (sym (only_entry k l e).1) refl;
}

sum_scores-Total_example :
    Returns
      (λ totals. AllWithin 200 totals × (map (λ s. s.name) totals ≡ "a" ∷ "b" ∷ []))
      (sum_scores 0 (node_named "a" ∷ node_named "b" ∷ []) weighted_scores)
sum_scores-Total_example =
    sum_scores-Total (("score_by", pos 2) ∷ []) (node_named "a" ∷ node_named "b" ∷ [])
      weighted_scores weighted_scores-IsWeighted (omega arith)

select_host-Chosen_example :
    (name : String) × (select_host
        (λ i. true)
        (score_of "a" 5 ∷ score_of "b" 7 ∷ score_of "c" 7 ∷ [])
      ≡ some name)
    × Chosen (score_of "a" 5 ∷ score_of "b" 7 ∷ score_of "c" 7 ∷ []) name
select_host-Chosen_example =
    select_host-Chosen (λ i. true) (score_of "a" 5) (score_of "b" 7 ∷ score_of "c" 7 ∷ [])

num_feasible-Enough_example :
    (found : ℕ) × (num_feasible_nodes_to_find (pos 0) (pos 1000) ≡ pos found)
    × (found ≤ 1000)
    × (1000 < 100 → found ≡ 1000)
    × (100 ≤ 1000 → 100 ≤ found)
    × (pos 0 ≤ℤ pos 0 → 1000 ≤ 20 * found + 19)
num_feasible-Enough_example = num_feasible-Enough (pos 0) 1000 (omega arith)

abbrev node_b : NodeInfo
node_b = record (new_node_info (pos 2)) { node = some (node_named "b") }

pod_passes-Decides_example :
    Returns
      (Decides (
        fits_with small_framework
          (pos 9)
          (pod_named "a")
          (competitors small_framework (pos 9) (pod_named "a") nominated node_b)
          0
          node_b))
      (pod_passes_filters_on_node small_framework (pos 9) (pod_named "a") nominated 0 node_b)
pod_passes-Decides_example =
    pod_passes-Decides small_framework (pos 9) (pod_named "a") nominated 0 node_b

find_nodes-First_example :
    Returns
      (λ r.
        (r.next_start < 3)
        × ((nodes : List Node)
            → r.nodes ≡ value nodes
            → nodes
              ≡ take 2 (
                  kept
                    (node_fits small_framework (pos 9) (pod_named "a") 0 nominated)
                    snapshot
                    1
                    (2 ∷ 0 ∷ 1 ∷ []))))
      (find_nodes_that_pass_filters true
        (pod_passes_filters_on_node small_framework (pos 9) (pod_named "a") nominated 0)
        snapshot
        1
        2
        (2 ∷ 0 ∷ 1 ∷ [])
        [])
find_nodes-First_example =
    find_nodes-First small_framework (pos 9) (pod_named "a") 0 nominated snapshot 1 2
      (2 ∷ 0 ∷ 1 ∷ []) [] (omega arith)

abbrev env : SchedulerEnv
env = record {
  extenders = [];
  all_nodes = snapshot;
  percentage_of_nodes_to_score = pos 0;
  next_start_node_index = 1;
  nominated_pods_for_node = nominated;
  order = 2 ∷ 0 ∷ 1 ∷ [];
  draw = λ i. false;
  show_int = show_int;
  max_extender_priority = 10;
  clone_generation = pos 9;
}

schedule-IsHostOf_example :
    Returns
      (OnValue (
        IsHostOf env small_framework
          (pod_named "a")
          (candidates env small_framework (pod_named "a") 0)
          (run_pre_filter_plugins small_framework (pod_named "a") 0).1))
      (schedule env small_framework (pod_named "a") none 0)
unfolding has_filter_plugins
schedule-IsHostOf_example =
    schedule-IsHostOf env small_framework (pod_named "a") small_weights (omega arith) refl 0 refl
