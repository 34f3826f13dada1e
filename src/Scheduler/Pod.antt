-- ===== src/Scheduler/Pod.antt =====
-- The Kubernetes pod as the scheduler reads it, and the queued pod of
-- scheduler/framework/v1alpha1/types.go.
use cloud_prophet.Prelude.{
  ℕ, String, Option, none, some, List, [], ◌∷◌, if◌then◌else◌, ◌===◌, string_eq, nat_eq, Result,
  value, error,
}
use Prim.Native.String.{◌++◌ as ◌++s◌}
use cloud_prophet.Prelude.Int.{ℤ}

-- v1.PodAffinityTerm. Label selectors and label sets are opaque codes.
pub record PodAffinityTerm : Type 0 where
  pub namespaces : List String
  pub label_selector : ℕ
  pub topology_key : String

-- v1.PodAffinity and v1.PodAntiAffinity: the required terms.
pub record PodAffinity : Type 0 where
  pub required : List PodAffinityTerm

pub record Affinity : Type 0 where
  pub pod_affinity : Option PodAffinity
  pub pod_anti_affinity : Option PodAffinity

-- resource.Quantity, as its Value and its MilliValue.
pub record Quantity : Type 0 where
  pub whole_value : ℤ
  pub milli_value : ℤ

abbrev pub ResourceList : Type 0
ResourceList = List (String × Quantity)

-- v1.ContainerPort.
pub record ContainerPort : Type 0 where
  pub host_ip : String
  pub protocol : String
  pub host_port : ℤ

-- v1.Container: its requests and its ports.
pub record Container : Type 0 where
  pub requests : ResourceList
  pub ports : List ContainerPort

-- v1.PodSpec. `other_spec` stands for all the fields that the modelled code only compares.
pub record PodSpec : Type 0 where
  pub node_name : String
  pub affinity : Option Affinity
  pub containers : List Container
  pub init_containers : List Container
  pub overhead : Option ResourceList
  pub other_spec : ℕ

-- v1.PodStatus.
pub record PodStatus : Type 0 where
  pub nominated_node_name : String
  pub other_status : ℕ

-- v1.Pod. `other_meta` stands for the rest of the metadata.
pub record Pod : Type 0 where
  pub name : String
  pub namespace : String
  pub uid : String
  pub labels : ℕ
  pub resource_version : String
  pub generation : ℤ
  pub other_meta : ℕ
  pub spec : PodSpec
  pub status : PodStatus

-- Times are instants on one axis, in nanoseconds.
pub record QueuedPodInfo : Type 0 where
  pub pod : Pod
  pub timestamp : ℤ
  pub attempts : ℕ
  pub initial_attempt_timestamp : ℤ

pub data PodKeyError : Type 0 where
  empty_uid : PodKeyError

unfoldable pub get_pod_key : Pod → Result PodKeyError String
get_pod_key pod = if pod.uid === "" then error empty_uid else value (pod.uid)

-- GetPodFullName of scheduler/util/utils.go.
unfoldable pub get_pod_full_name : Pod → String
get_pod_full_name pod = pod.name ++s ("_" ++s pod.namespace)

-- GetPodAffinityTerms of scheduler/util/utils.go.
unfoldable pub get_pod_affinity_terms : Option Affinity → List PodAffinityTerm
get_pod_affinity_terms none = []
get_pod_affinity_terms (some a) = elim (a.pod_affinity) [ none ↦ [] | some pa ↦ pa.required ]

-- GetPodAntiAffinityTerms of scheduler/util/utils.go.
unfoldable pub get_pod_anti_affinity_terms : Option Affinity → List PodAffinityTerm
get_pod_anti_affinity_terms none = []
get_pod_anti_affinity_terms (some a) = elim (a.pod_anti_affinity) [
  | none ↦ []
  | some pa ↦ pa.required
]

-- GetNamespacesFromPodAffinityTerm of scheduler/util/topologies.go.
unfoldable pub get_namespaces_from_pod_affinity_term : Pod → PodAffinityTerm → List String
get_namespaces_from_pod_affinity_term pod term = elim (term.namespaces) [
  | [] ↦ pod.namespace ∷ []
  | n ∷ ns ↦ n ∷ ns
]

-- GetPodPriority of scheduler/helper/pod.go, which reads nothing of the pod.
unfoldable pub get_pod_priority : Pod → ℤ
get_pod_priority pod = ℤ.pos 0
