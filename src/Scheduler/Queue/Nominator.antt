-- ===== src/Scheduler/Queue/Nominator.antt =====
-- scheduler/internal/queue/scheduling_queue.go: nominatedPodMap.
pub mod Laws
use cloud_prophet.Prelude.{
  String, Bool, true, false, ◌&&◌, Option, none, some, List, [], ◌∷◌, ◌++◌, if◌then◌else◌,
  string_eq, ◌===◌,
}
use cloud_prophet.Prelude.Map.{Map, lookup, insert}
use cloud_prophet.Prelude.Map
use cloud_prophet.Scheduler.Pod.{Pod}

-- Both maps; the lock is held by every caller.
pub record NominatedPodMap : Type 0 where
  pub nominated_pods : Map String (List Pod)
  pub nominated_pod_to_node : Map String String

pub new_pod_nominator : NominatedPodMap
new_pod_nominator = record { nominated_pods = []; nominated_pod_to_node = [] }

-- A missing key reads as the nil slice.
unfoldable pub pods_in : String → Map String (List Pod) → List Pod
pods_in n m = elim (lookup n m) [ none ↦ [] | some pods ↦ pods ]

pub nominated_pods_for_node : NominatedPodMap → String → List Pod
nominated_pods_for_node npm n = pods_in n npm.nominated_pods

has_uid : String → List Pod → Bool
has_uid u [] = false
has_uid u (p ∷ ps) = if p.uid === u then true else has_uid u ps

-- append(pods[:i], pods[i+1:]...) at the first pod of that UID.
remove_uid : String → List Pod → List Pod
remove_uid u [] = []
remove_uid u (p ∷ ps) = if p.uid === u then ps else p ∷ remove_uid u ps

store_or_delete : String → List Pod → Map String (List Pod) → Map String (List Pod)
store_or_delete n [] m = Map.delete n m
store_or_delete n (p ∷ ps) m = insert n (p ∷ ps) m

-- The loop of delete over nominatedPods[nnn].
drop_from : String → String → Map String (List Pod) → Map String (List Pod)
unfolding has_uid remove_uid store_or_delete
drop_from n u m =
    let pods = pods_in n m in if has_uid u pods then store_or_delete n (remove_uid u pods) m else m

unfoldable pub delete : NominatedPodMap → Pod → NominatedPodMap
unfolding drop_from
delete npm p = elim (lookup p.uid npm.nominated_pod_to_node) [
  | none ↦ npm
  | some n ↦ record {
    nominated_pods = drop_from n p.uid npm.nominated_pods;
    nominated_pod_to_node = Map.delete p.uid npm.nominated_pod_to_node;
  }
]

-- The node name of the call, or the pod's own.
unfoldable pub target : Pod → String → String
target p n = if n === "" then p.status.nominated_node_name else n

nominate : NominatedPodMap → Pod → String → NominatedPodMap
unfolding has_uid
nominate npm p n =
    let pods = pods_in n npm.nominated_pods in
    record {
      nominated_pods =
          if has_uid p.uid pods
          then npm.nominated_pods
          else insert n (pods ++ p ∷ []) npm.nominated_pods;
      nominated_pod_to_node = insert p.uid n npm.nominated_pod_to_node;
    }

unfoldable pub add : NominatedPodMap → Pod → String → NominatedPodMap
unfolding nominate
add npm p n =
    let rest = delete npm p in
    let nnn = target p n in if nnn === "" then rest else nominate rest p nnn

-- The node that stays reserved when neither pod names one.
reserved : NominatedPodMap → Pod → Pod → String
reserved npm old new =
    if old.status.nominated_node_name === "" && new.status.nominated_node_name === ""
    then elim (lookup old.uid npm.nominated_pod_to_node) [ none ↦ "" | some n ↦ n ]
    else ""

unfoldable pub update_nominated_pod : NominatedPodMap → Pod → Pod → NominatedPodMap
unfolding reserved
update_nominated_pod npm old new = add (delete npm old) new (reserved npm old new)
