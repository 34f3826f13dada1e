-- ===== src/Scheduler/NodeInfo.antt =====
-- scheduler/framework/v1alpha1/types.go: NodeInfo. A PodInfo is its pod, since the affinity terms that
-- it carries are computed from the pod and not read here; TransientInfo is left out. The next value of
-- the global generation counter is an argument.
pub mod Resources
pub mod Ports
pub mod SwapOut
use cloud_prophet.Prelude.{
  ℕ, zero, suc, ◌+◌, ◌-◌, String, Bool, true, false, ◌&&◌, ◌||◌, Option, none, some, List, [], ◌∷◌,
  ◌++◌, set, take, length, get_elem?, if◌then◌else◌, string_eq, ◌===◌, Run, ok, panic, Result,
  value, error,
}
use cloud_prophet.Prelude.Int.{ℤ, pos}
use cloud_prophet.Prelude.Map.{Map}
use cloud_prophet.Scheduler.Pod.{Pod, PodKeyError, get_pod_key, ContainerPort, Container}
use cloud_prophet.Scheduler.Node.{Node}
use cloud_prophet.Scheduler.NodeInfo.Resources.{
  Resource, no_resource, new_resource, merge, plus, minus, calculate_resource,
}
use cloud_prophet.Scheduler.NodeInfo.Ports.{HostPortInfo}
use cloud_prophet.Scheduler.NodeInfo.Ports

pub record ImageStateSummary : Type 0 where
  pub size : ℤ
  pub num_nodes : ℕ

pub record NodeInfo : Type 0 where
  pub node : Option Node
  pub pods : List Pod
  pub pods_with_affinity : List Pod
  pub used_ports : HostPortInfo
  pub requested : Resource
  pub non_zero_requested : Resource
  pub allocatable : Resource
  pub image_states : Map String ImageStateSummary
  pub generation : ℤ

pub data NodeInfoError : Type 0 where
  no_pod_key : PodKeyError → NodeInfoError
  no_corresponding_pod : String → String → NodeInfoError

-- NewNodeInfo with no pods.
unfoldable pub new_node_info : ℤ → NodeInfo
new_node_info generation = record {
  node = none;
  pods = [];
  pods_with_affinity = [];
  used_ports = [];
  requested = no_resource;
  non_zero_requested = no_resource;
  allocatable = no_resource;
  image_states = [];
  generation = generation;
}

-- The loops of updateUsedPorts.
update_ports :
    (HostPortInfo → String → String → ℤ → HostPortInfo)
    → HostPortInfo
    → List ContainerPort
    → HostPortInfo
update_ports f h [] = h
update_ports f h (p ∷ ps) = update_ports f (f h p.host_ip p.protocol p.host_port) ps

update_used_ports :
    (HostPortInfo → String → String → ℤ → HostPortInfo)
    → HostPortInfo
    → List Container
    → HostPortInfo
unfolding update_ports
update_used_ports f h [] = h
update_used_ports f h (c ∷ cs) = update_used_ports f (update_ports f h c.ports) cs

has_affinity : Pod → Bool
has_affinity pod = elim (pod.spec.affinity) as (λ _. Bool) [
  | none ↦ false
  | some a ↦ elim (a.pod_affinity) as (λ _. Bool) [
    | some x ↦ true
    | none ↦ elim (a.pod_anti_affinity) as (λ _. Bool) [ some y ↦ true | none ↦ false ]
  ]
]

unfoldable pub add_pod : NodeInfo → Pod → ℤ → NodeInfo
unfolding has_affinity update_used_ports
add_pod n pod generation =
    let (res, cpu, mem) = calculate_resource pod in
    record n {
      requested = merge plus n.requested res;
      non_zero_requested = record n.non_zero_requested {
        milli_cpu = plus n.non_zero_requested.milli_cpu cpu;
        memory = plus n.non_zero_requested.memory mem;
      };
      pods = n.pods ++ pod ∷ [];
      pods_with_affinity =
          if has_affinity pod then n.pods_with_affinity ++ pod ∷ [] else n.pods_with_affinity;
      used_ports = update_used_ports Ports.add n.used_ports pod.spec.containers;
      generation = generation;
    }

-- The index of the first pod with the key; a pod with no key is passed over.
unfoldable pub find_key : String → List Pod → Option ℕ
find_key k [] = none
find_key k (p ∷ ps) =
    let later = elim (find_key k ps) as (λ _. Option ℕ) [ none ↦ none | some i ↦ some (suc i) ] in
    elim (get_pod_key p) as (λ _. Option ℕ) [
      | error e ↦ later
      | value j ↦ if k === j then some 0 else later
    ]

-- xs[i] = xs[len(xs)-1], and the last element cut off.
unfoldable pub swap_out : List Pod → ℕ → List Pod
swap_out xs i =
    let last = length xs - 1 in
    take last (elim (get_elem? xs last) as (λ _. List Pod) [ none ↦ xs | some l ↦ set xs i l ])

unfoldable pub drop_key : String → List Pod → List Pod
unfolding find_key swap_out
drop_key k ps = elim (find_key k ps) as (λ _. List Pod) [ none ↦ ps | some i ↦ swap_out ps i ]

-- RemovePod once the pod is found at index `i`.
unfoldable pub take_pod : NodeInfo → Pod → ℕ → ℤ → NodeInfo
unfolding swap_out update_used_ports
take_pod n pod i generation =
    let (res, cpu, mem) = calculate_resource pod in
    record n {
      pods = swap_out n.pods i;
      requested = merge minus n.requested res;
      non_zero_requested = record n.non_zero_requested {
        milli_cpu = minus n.non_zero_requested.milli_cpu cpu;
        memory = minus n.non_zero_requested.memory mem;
      };
      used_ports = update_used_ports Ports.remove n.used_ports pod.spec.containers;
      generation = generation;
    }

-- The message of the last error reads the name of the node, which may be nil.
unfoldable pub remove_pod : NodeInfo → Pod → ℤ → Run (NodeInfo × Option NodeInfoError)
unfolding drop_key take_pod find_key
remove_pod n pod generation =
    elim (get_pod_key pod) as (λ _. Run (NodeInfo × Option NodeInfoError)) [
      | error e ↦ ok (n, some (no_pod_key e))
      | value k ↦
          let m = record n { pods_with_affinity = drop_key k n.pods_with_affinity } in
          elim (find_key k n.pods) as (λ _. Run (NodeInfo × Option NodeInfoError)) [
            | some i ↦ ok (take_pod m pod i generation, none)
            | none ↦ elim (n.node) as (λ _. Run (NodeInfo × Option NodeInfoError)) [
              | none ↦ panic
              | some node ↦ ok (m, some (no_corresponding_pod pod.name node.name))
            ]
          ]
    ]

unfoldable pub set_node : NodeInfo → Node → ℤ → NodeInfo
set_node n node generation = record n {
  node = some node;
  allocatable = new_resource node.allocatable;
  generation = generation;
}

unfoldable pub remove_node : NodeInfo → ℤ → NodeInfo
remove_node n generation = record n { node = none; generation = generation }

keep_pod : NodeInfo → Node → Pod → Bool
unfolding find_key
keep_pod n node p =
    if p.spec.node_name === node.name
    then elim (get_pod_key p) as (λ _. Bool) [
      | error e ↦ false
      | value k ↦ elim (find_key k n.pods) as (λ _. Bool) [ none ↦ false | some i ↦ true ]
    ]
    else true

keep_pods : NodeInfo → Node → List Pod → List Pod
unfolding keep_pod
keep_pods n node [] = []
keep_pods n node (p ∷ ps) =
    let rest = keep_pods n node ps in if keep_pod n node p then p ∷ rest else rest

unfoldable pub filter_out_pods : NodeInfo → List Pod → List Pod
unfolding keep_pods
filter_out_pods n pods = elim (n.node) as (λ _. List Pod) [
  | none ↦ pods
  | some node ↦ keep_pods n node pods
]
