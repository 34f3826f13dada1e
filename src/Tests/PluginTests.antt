-- ===== src/Tests/PluginTests.antt =====
-- Runs of the plugins under scheduler/framework/plugins.
use cloud_prophet.Prelude.{
  ◌≡◌, refl, String, true, false, ◌⊎◌, [], ◌∷◌, length, string_eq, ok, Returns, arith,
}
use cloud_prophet.Prelude.Int.{ℤ, pos, wrap64, quot, ◌+ℤ◌, ◌-ℤ◌, ◌*ℤ◌, ◌≤ℤ◌}
use cloud_prophet.Prelude.Map.{Map, lookup}
use cloud_prophet.Scheduler.Pod.{Pod}
use cloud_prophet.Scheduler.NodeInfo.{NodeInfo, new_node_info, add_pod}
use cloud_prophet.Scheduler.NodeInfo.Resources.{no_resource, add, add_quantity}
use cloud_prophet.Scheduler.Framework.Plugins.{NodeScoreList}
use cloud_prophet.Scheduler.Framework.Scoring.Bounds.{AllWithin, within_nil, within_cons}
use cloud_prophet.Scheduler.Plugins.Filters.{
  add_requests, max_requests, check_resource, check_scalars, compute_pod_resource_request,
  requests_nothing, fits_request,
}
use cloud_prophet.Scheduler.Plugins.Fitting.{WithinRoom, add_pod-WithinRoom}
use cloud_prophet.Scheduler.Plugins.Allocation.{
  quot_ℤ, least_requested_score, most_requested_score, weigh_resources, resource_scorer,
  least_resource_scorer, most_resource_scorer,
}
use cloud_prophet.Scheduler.Plugins.Allocation.Share.{
  WithinScore, IsMeasured, sums_nil, sums_cons, IsMeasured-nil, IsMeasured-cons,
  scorers-WithinScore,
}
use cloud_prophet.Scheduler.Plugins.Scores.{default_normalize_score}
use cloud_prophet.Scheduler.Plugins.Scores.Normalized.{default_normalize-AllWithin}
use cloud_prophet.Tests.QueueTests.{pod_named}

abbrev asking : Pod
asking = record (pod_named "a") {
  spec = record (pod_named "a").spec {
    containers =
        record {
          requests =
              ("cpu", record { whole_value = pos 1; milli_value = pos 500 })
              ∷ ("memory", record { whole_value = pos 64; milli_value = pos 64000 })
              ∷ [];
          ports = [];
        }
        ∷ [];
  };
}

abbrev roomy : NodeInfo
roomy = record (new_node_info (pos 1)) {
  allocatable = record no_resource {
    milli_cpu = pos 2000;
    memory = pos 100;
    ephemeral_storage = pos 10;
    allowed_pod_number = pos 5;
  };
  requested = record no_resource { milli_cpu = pos 1500; memory = pos 30 };
}

-- What the filter finds for the pod on the node: nothing.
fits_lem : fits_request (λ s. false) (compute_pod_resource_request asking) roomy ≡ []
unfolding fits_request compute_pod_resource_request add_requests max_requests check_resource
    check_scalars requests_nothing add add_quantity new_node_info wrap64 ◌+ℤ◌
fits_lem = refl

add_pod-WithinRoom_example :
    (pos (length (add_pod roomy asking (pos 2)).pods) ≤ℤ pos 5)
    × ((requests_nothing (compute_pod_resource_request asking) ≡ true)
        ⊎ WithinRoom (add_pod roomy asking (pos 2)))
unfolding new_node_info
add_pod-WithinRoom_example = add_pod-WithinRoom (λ s. false) roomy asking (pos 2) fits_lem

abbrev raw_scores : NodeScoreList
raw_scores = record { name = "a"; score = pos 3 } ∷ record { name = "b"; score = pos 12 } ∷ []

default_normalize-AllWithin_example :
    AllWithin 100 (default_normalize_score (pos 100) true raw_scores)
default_normalize-AllWithin_example =
    default_normalize-AllWithin true 12 raw_scores (omega arith)
      (within_cons 3 refl (omega arith) (within_cons 12 refl (omega arith) within_nil))

abbrev wanted : Map String ℤ
wanted = ("cpu", pos 500) ∷ ("memory", pos 30) ∷ []

abbrev offered : Map String ℤ
offered = ("cpu", pos 2000) ∷ ("memory", pos 100) ∷ []

abbrev even_weights : Map String ℤ
even_weights = ("cpu", pos 1) ∷ ("memory", pos 1) ∷ []

-- 75 and 70 percent are free.
least_run : least_resource_scorer even_weights wanted offered ≡ ok (pos 72)
unfolding least_resource_scorer resource_scorer weigh_resources least_requested_score quot_ℤ quot
    lookup wrap64 ◌+ℤ◌ ◌-ℤ◌ ◌*ℤ◌
least_run = refl

-- 25 and 30 percent are used.
most_run : most_resource_scorer even_weights wanted offered ≡ ok (pos 27)
unfolding most_resource_scorer resource_scorer weigh_resources most_requested_score quot_ℤ quot
    lookup wrap64 ◌+ℤ◌ ◌-ℤ◌ ◌*ℤ◌
most_run = refl

wanted-IsMeasured : IsMeasured wanted offered
wanted-IsMeasured =
    IsMeasured-cons "cpu" 500 2000 _ _ (omega arith)
      (IsMeasured-cons "memory" 30 100 [] [] (omega arith) IsMeasured-nil)

scorers-WithinScore_example :
    Returns WithinScore (least_resource_scorer even_weights wanted offered)
    × Returns WithinScore (most_resource_scorer even_weights wanted offered)
scorers-WithinScore_example =
    scorers-WithinScore wanted offered 2 wanted-IsMeasured (sums_cons 1 1 (sums_cons 1 0 sums_nil))
      (omega arith) (omega arith)
