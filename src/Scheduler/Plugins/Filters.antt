-- ===== src/Scheduler/Plugins/Filters.antt =====
-- The Filter plugins noderesources/fit.go, nodeports/node_ports.go and nodename/node_name.go of
-- scheduler/framework/plugins. What a plugin reads from the CycleState is an argument: the state that its
-- PreFilter wrote, or the error of the read. A sets.String is a test on strings.
use cloud_prophet.Prelude.{
  ◌+◌, String, Bool, true, false, ◌&&◌, ◌||◌, Option, none, some, List, [], ◌∷◌, ◌++◌, map,
  is_empty, length, if◌then◌else◌, string_eq, ◌===◌, Result, value, error,
}
use Prim.Native.String.{◌++◌ as ◌++s◌}
use cloud_prophet.Prelude.Int.{ℤ, pos, ltb_ℤ, eqb_ℤ}
use cloud_prophet.Prelude.Map.{Map}
use cloud_prophet.Scheduler.Pod.{Pod, Container, ContainerPort}
use cloud_prophet.Scheduler.Node.{Node}
use cloud_prophet.Scheduler.NodeInfo.{NodeInfo}
use cloud_prophet.Scheduler.NodeInfo.Resources.{
  Resource, no_resource, scalar, plus, add, set_max_resource,
}
use cloud_prophet.Scheduler.NodeInfo.Ports.{HostPortInfo, check_conflict}
use cloud_prophet.Scheduler.Framework.Status.{Code, Status, new_status}

-- The loops of computePodResourceRequest.
unfoldable pub add_requests : Resource → List Container → Resource
add_requests r [] = r
add_requests r (c ∷ cs) = add_requests (add r c.requests) cs

unfoldable pub max_requests : Resource → List Container → Resource
max_requests r [] = r
max_requests r (c ∷ cs) = max_requests (set_max_resource r c.requests) cs

unfoldable pub compute_pod_resource_request : Pod → Resource
unfolding add_requests max_requests
compute_pod_resource_request pod =
    let r = max_requests (add_requests no_resource pod.spec.containers) pod.spec.init_containers in
    elim (pod.spec.overhead) as (λ _. Resource) [ none ↦ r | some overhead ↦ add r overhead ]

pub record InsufficientResource : Type 0 where
  pub resource_name : String
  pub reason : String
  pub requested : ℤ
  pub used : ℤ
  pub capacity : ℤ

-- A resource that does not fit; `rest` are the ones after it.
unfoldable pub check_resource :
    String → String → ℤ → ℤ → ℤ → List InsufficientResource → List InsufficientResource
check_resource name reason request used capacity rest =
    if ltb_ℤ capacity (plus request used)
    then record {
      resource_name = name;
      reason = reason;
      requested = request;
      used = used;
      capacity = capacity;
    }
      ∷ rest
    else rest

-- The loop over the scalar resources. `ignored` is the test on ignoredExtendedResources and on
-- ignoredResourceGroups, with the group as the name before the slash.
unfoldable pub check_scalars :
    (String → Bool) → Resource → NodeInfo → Map String ℤ → List InsufficientResource
unfolding check_resource
check_scalars ignored request n [] = []
check_scalars ignored request n ((name, quantity) ∷ m) =
    let rest = check_scalars ignored request n m in
    if ignored name
    then rest
    else check_resource name ("Insufficient " ++s name) quantity
        (scalar name n.requested.scalar_resources) (scalar name n.allocatable.scalar_resources) rest

unfoldable pub requests_nothing : Resource → Bool
requests_nothing r =
    eqb_ℤ r.milli_cpu (pos 0)
    && (eqb_ℤ r.memory (pos 0)
        && (eqb_ℤ r.ephemeral_storage (pos 0) && is_empty r.scalar_resources))

unfoldable pub fits_request : (String → Bool) → Resource → NodeInfo → List InsufficientResource
unfolding check_resource check_scalars requests_nothing
fits_request ignored request n =
    let used = n.requested in
    let room = n.allocatable in
    let resources =
      check_resource "cpu" "Insufficient cpu" request.milli_cpu used.milli_cpu room.milli_cpu (
        check_resource "memory" "Insufficient memory" request.memory used.memory room.memory (
          check_resource "ephemeral-storage" "Insufficient ephemeral-storage"
            request.ephemeral_storage used.ephemeral_storage room.ephemeral_storage
            (check_scalars ignored request n request.scalar_resources))) in
    let rest = if requests_nothing request then [] else resources in
    if ltb_ℤ room.allowed_pod_number (pos (length n.pods + 1))
    then record {
      resource_name = "pods";
      reason = "Too many pods";
      requested = pos 1;
      used = pos (length n.pods);
      capacity = room.allowed_pod_number;
    }
      ∷ rest
    else rest

unfoldable pub fit_filter : (String → Bool) → Result String Resource → NodeInfo → Option Status
unfolding fits_request
fit_filter ignored (error e) n = new_status Code.error (e ∷ [])
fit_filter ignored (value request) n =
    let insufficient = fits_request ignored request n in
    if is_empty insufficient
    then none
    else new_status Code.unschedulable (map (λ r. r.reason) insufficient)

unfoldable pub container_ports : List Container → List ContainerPort
container_ports [] = []
container_ports (c ∷ cs) = c.ports ++ container_ports cs

unfoldable pub get_container_ports : List Pod → List ContainerPort
unfolding container_ports
get_container_ports [] = []
get_container_ports (p ∷ ps) = container_ports p.spec.containers ++ get_container_ports ps

unfoldable pub fits_ports : List ContainerPort → HostPortInfo → Bool
fits_ports [] used = true
fits_ports (cp ∷ ports) used =
    if check_conflict used cp.host_ip cp.protocol cp.host_port then false else fits_ports ports used

unfoldable pub node_ports_filter : Result String (List ContainerPort) → NodeInfo → Option Status
unfolding fits_ports
node_ports_filter (error e) n = new_status Code.error (e ∷ [])
node_ports_filter (value ports) n =
    if fits_ports ports n.used_ports
    then none
    else new_status Code.unschedulable
        ("node(s) didn't have free ports for the requested pod ports" ∷ [])

unfoldable pub node_name_fits : Pod → Node → Bool
node_name_fits pod node = (pod.spec.node_name === "") || (pod.spec.node_name === node.name)

unfoldable pub node_name_filter : Pod → NodeInfo → Option Status
unfolding node_name_fits
node_name_filter pod n = elim (n.node) as (λ _. Option Status) [
  | none ↦ new_status Code.error ("node not found" ∷ [])
  | some node ↦
      if node_name_fits pod node
      then none
      else new_status Code.unschedulable_and_unresolvable
          ("node(s) didn't match the requested hostname" ∷ [])
]
