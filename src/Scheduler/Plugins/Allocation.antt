-- ===== src/Scheduler/Plugins/Allocation.antt =====
-- The score plugins of scheduler/framework/plugins/noderesources: resource_allocation.go,
-- least_allocated.go and most_allocated.go. The scorers of the two plugins ignore the volumes, which
-- are left out.
pub mod Share
use cloud_prophet.Prelude.{
  ℕ, zero, suc, String, Bool, true, false, Option, none, some, List, [], ◌∷◌, if◌then◌else◌,
  string_eq, ◌===◌, Run, ok, panic, ◌>>=◌,
}
use cloud_prophet.Prelude.Int.{ℤ, pos, negsuc, wrap64, quot, ltb_ℤ, eqb_ℤ, ◌-ℤ◌, ◌*ℤ◌}
use cloud_prophet.Prelude.Map.{Map, lookup, insert}
use cloud_prophet.Scheduler.Pod.{Pod, Container}
use cloud_prophet.Scheduler.NodeInfo.{NodeInfo}
use cloud_prophet.Scheduler.NodeInfo.Resources.{scalar, plus, get_nonzero_request_for_resource}
use cloud_prophet.Scheduler.Framework.Status.{Code, Status, new_status}

-- The division of int64 numbers by a divisor that is not 0.
unfoldable pub quot_ℤ : ℤ → ℤ → ℤ
quot_ℤ a (pos d) = quot a d
quot_ℤ a (negsuc d) = wrap64 (pos 0 -ℤ quot a (suc d))

unfoldable pub least_requested_score : ℤ → ℤ → ℤ
unfolding quot_ℤ
least_requested_score requested capacity =
    if eqb_ℤ capacity (pos 0)
    then pos 0
    else if ltb_ℤ capacity requested
    then pos 0
    else quot_ℤ (wrap64 (wrap64 (capacity -ℤ requested) *ℤ pos 100)) capacity

unfoldable pub most_requested_score : ℤ → ℤ → ℤ
unfolding quot_ℤ
most_requested_score requested capacity =
    if eqb_ℤ capacity (pos 0)
    then pos 0
    else if ltb_ℤ capacity requested
    then pos 0
    else quot_ℤ (wrap64 (requested *ℤ pos 100)) capacity

-- The loop of the scorer over the weights, with the score of a single resource as an argument: nodeScore
-- and weightSum.
unfoldable pub weigh_resources :
    (ℤ → ℤ → ℤ) → Map String ℤ → Map String ℤ → Map String ℤ → ℤ → ℤ → ℤ × ℤ
weigh_resources f requested allocatable [] node_score weight_sum = (node_score, weight_sum)
weigh_resources f requested allocatable ((name, weight) ∷ m) node_score weight_sum =
    let resource_score = f (scalar name requested) (scalar name allocatable) in
    weigh_resources f requested allocatable m (plus node_score (wrap64 (resource_score *ℤ weight)))
      (plus weight_sum weight)

-- The scorer that leastResourceScorer and mostResourceScorer return; the division panics where the sum of
-- the weights is 0.
unfoldable pub resource_scorer : (ℤ → ℤ → ℤ) → Map String ℤ → Map String ℤ → Map String ℤ → Run ℤ
unfolding weigh_resources quot_ℤ
resource_scorer f weights requested allocatable =
    let (node_score, weight_sum) =
      weigh_resources f requested allocatable weights (pos 0) (pos 0) in
    if eqb_ℤ weight_sum (pos 0) then panic else ok (quot_ℤ node_score weight_sum)

unfoldable pub least_resource_scorer : Map String ℤ → Map String ℤ → Map String ℤ → Run ℤ
unfolding resource_scorer least_requested_score
least_resource_scorer = resource_scorer least_requested_score

unfoldable pub most_resource_scorer : Map String ℤ → Map String ℤ → Map String ℤ → Run ℤ
unfolding resource_scorer most_requested_score
most_resource_scorer = resource_scorer most_requested_score

-- The loops of calculatePodResourceRequest.
unfoldable pub sum_requests : String → List Container → ℤ → ℤ
sum_requests resource [] pod_request = pod_request
sum_requests resource (c ∷ cs) pod_request =
    sum_requests resource cs
      (plus pod_request (get_nonzero_request_for_resource resource c.requests))

unfoldable pub raise_to : String → List Container → ℤ → ℤ
raise_to resource [] pod_request = pod_request
raise_to resource (c ∷ cs) pod_request =
    let request = get_nonzero_request_for_resource resource c.requests in
    raise_to resource cs (if ltb_ℤ pod_request request then request else pod_request)

unfoldable pub calculate_pod_resource_request : Pod → String → ℤ
unfolding sum_requests raise_to
calculate_pod_resource_request pod resource =
    let pod_request =
      raise_to resource pod.spec.init_containers
        (sum_requests resource pod.spec.containers (pos 0)) in
    elim (pod.spec.overhead) as (λ _. ℤ) [
      | none ↦ pod_request
      | some overhead ↦ elim (lookup resource overhead) as (λ _. ℤ) [
        | none ↦ pod_request
        | some q ↦ plus pod_request q.whole_value
      ]
    ]

-- What can be allocated of a resource, and what is requested.
unfoldable pub calculate_resource_allocatable_request : NodeInfo → Pod → String → ℤ × ℤ
unfolding calculate_pod_resource_request
calculate_resource_allocatable_request n pod resource =
    let request = calculate_pod_resource_request pod resource in
    if resource === "cpu"
    then (n.allocatable.milli_cpu, plus n.non_zero_requested.milli_cpu request)
    else if resource === "memory"
    then (n.allocatable.memory, plus n.non_zero_requested.memory request)
    else if resource === "ephemeral-storage"
    then (n.allocatable.ephemeral_storage, plus n.requested.ephemeral_storage request)
    else (
      scalar resource n.allocatable.scalar_resources,
      plus (scalar resource n.requested.scalar_resources) request,
    )

-- The loop of score that fills the maps of what is requested and of what can be allocated.
unfoldable pub fill_resources :
    NodeInfo → Pod → Map String ℤ → Map String ℤ → Map String ℤ → Map String ℤ × Map String ℤ
unfolding calculate_resource_allocatable_request
fill_resources n pod [] requested allocatable = (requested, allocatable)
fill_resources n pod ((resource, weight) ∷ m) requested allocatable =
    let (can, wants) = calculate_resource_allocatable_request n pod resource in
    fill_resources n pod m (insert resource wants requested) (insert resource can allocatable)

-- The weights are `none` for a nil map.
unfoldable pub resource_allocation_score :
    (Map String ℤ → Map String ℤ → Map String ℤ → Run ℤ)
    → Option (Map String ℤ)
    → Pod
    → NodeInfo
    → Run (ℤ × Option Status)
unfolding fill_resources
resource_allocation_score scorer weights pod n = elim (n.node) as (λ _. Run (ℤ × Option Status)) [
  | none ↦ ok (pos 0, new_status Code.error ("node not found" ∷ []))
  | some node ↦ elim weights as (λ _. Run (ℤ × Option Status)) [
    | none ↦ ok (pos 0, new_status Code.error ("resources not found" ∷ []))
    | some w ↦
        let (requested, allocatable) = fill_resources n pod w [] [] in
        scorer w requested allocatable >>= λ s. ok (s, none)
  ]
]
