-- ===== src/Scheduler/NodeInfo/Resources.antt =====
-- scheduler/framework/v1alpha1/types.go: Resource, and scheduler/util/non_zero.go. A nil map of scalar
-- resources reads as the empty one. The int64 sums wrap.
use cloud_prophet.Prelude.{
  ◌*◌, String, Option, none, some, List, [], ◌∷◌, if◌then◌else◌, string_eq, ◌===◌,
}
use cloud_prophet.Prelude.Int.{ℤ, pos, ◌+ℤ◌, ◌-ℤ◌, ltb_ℤ, wrap64}
use cloud_prophet.Prelude.Map.{Map, lookup, insert}
use cloud_prophet.Scheduler.Pod.{Pod, Container, ResourceList, Quantity}

pub record Resource : Type 0 where
  pub milli_cpu : ℤ
  pub memory : ℤ
  pub ephemeral_storage : ℤ
  pub allowed_pod_number : ℤ
  pub scalar_resources : Map String ℤ

abbrev pub no_resource : Resource
no_resource = record {
  milli_cpu = pos 0;
  memory = pos 0;
  ephemeral_storage = pos 0;
  allowed_pod_number = pos 0;
  scalar_resources = [];
}

abbrev pub plus : ℤ → ℤ → ℤ
plus a b = wrap64 (a +ℤ b)

abbrev pub minus : ℤ → ℤ → ℤ
minus a b = wrap64 (a -ℤ b)

-- A missing key reads as 0.
abbrev pub scalar : String → Map String ℤ → ℤ
scalar name m = elim (lookup name m) as (λ _. ℤ) [ none ↦ pos 0 | some q ↦ q ]

unfoldable pub set_scalar : Resource → String → ℤ → Resource
set_scalar r name q = record r { scalar_resources = insert name q r.scalar_resources }

unfoldable pub add_scalar : Resource → String → ℤ → Resource
unfolding set_scalar
add_scalar r name q = set_scalar r name (plus (scalar name r.scalar_resources) q)

-- One entry of the list in Add.
unfoldable pub add_quantity : Resource → String → Quantity → Resource
unfolding add_scalar
add_quantity r name q =
    if name === "cpu"
    then record r { milli_cpu = plus r.milli_cpu q.milli_value }
    else if name === "memory"
    then record r { memory = plus r.memory q.whole_value }
    else if name === "pods"
    then record r { allowed_pod_number = plus r.allowed_pod_number q.whole_value }
    else if name === "ephemeral-storage"
    then record r { ephemeral_storage = plus r.ephemeral_storage q.whole_value }
    else add_scalar r name q.whole_value

unfoldable pub add : Resource → List (String × Quantity) → Resource
unfolding add_quantity
add r [] = r
add r ((name, q) ∷ rl) = add (add_quantity r name q) rl

pub new_resource : ResourceList → Resource
unfolding add
new_resource rl = add no_resource rl

abbrev pub max : ℤ → ℤ → ℤ
max old new = if ltb_ℤ old new then new else old

-- One entry of the list in SetMaxResource.
unfoldable pub max_quantity : Resource → String → Quantity → Resource
unfolding set_scalar
max_quantity r name q =
    if name === "memory"
    then record r { memory = max r.memory q.whole_value }
    else if name === "cpu"
    then record r { milli_cpu = max r.milli_cpu q.milli_value }
    else if name === "ephemeral-storage"
    then record r { ephemeral_storage = max r.ephemeral_storage q.whole_value }
    else if ltb_ℤ (scalar name r.scalar_resources) q.whole_value
    then set_scalar r name q.whole_value
    else r

unfoldable pub set_max_resource : Resource → List (String × Quantity) → Resource
unfolding max_quantity
set_max_resource r [] = r
set_max_resource r ((name, q) ∷ rl) = set_max_resource (max_quantity r name q) rl

abbrev pub default_milli_cpu_request : ℤ
default_milli_cpu_request = pos 100

abbrev pub default_memory_request : ℤ
default_memory_request = pos (200 * 1024 * 1024)

-- GetNonzeroRequestForResource.
pub get_nonzero_request_for_resource : String → ResourceList → ℤ
get_nonzero_request_for_resource name rl =
    if name === "cpu"
    then elim (lookup "cpu" rl) as (λ _. ℤ) [
      | none ↦ default_milli_cpu_request
      | some q ↦ q.milli_value
    ]
    else if name === "memory"
    then elim (lookup "memory" rl) as (λ _. ℤ) [
      | none ↦ default_memory_request
      | some q ↦ q.whole_value
    ]
    else elim (lookup name rl) as (λ _. ℤ) [ none ↦ pos 0 | some q ↦ q.whole_value ]

pub get_nonzero_requests : ResourceList → ℤ × ℤ
unfolding get_nonzero_request_for_resource
get_nonzero_requests rl =
    (get_nonzero_request_for_resource "cpu" rl, get_nonzero_request_for_resource "memory" rl)

-- What a pod requests: the resources, and the non-zero CPU and memory.
abbrev pub Request : Type 0
Request = Resource × ℤ × ℤ

unfoldable pub sum_containers : Request → List Container → Request
unfolding add get_nonzero_requests
sum_containers acc [] = acc
sum_containers (res, cpu, mem) (c ∷ cs) =
    let (cpu_req, mem_req) = get_nonzero_requests c.requests in
    sum_containers (add res c.requests, plus cpu cpu_req, plus mem mem_req) cs

unfoldable pub max_containers : Request → List Container → Request
unfolding set_max_resource get_nonzero_requests
max_containers acc [] = acc
max_containers (res, cpu, mem) (c ∷ cs) =
    let (cpu_req, mem_req) = get_nonzero_requests c.requests in
    max_containers (set_max_resource res c.requests, max cpu cpu_req, max mem mem_req) cs

unfoldable pub add_overhead : Request → Option ResourceList → Request
unfolding add
add_overhead acc none = acc
add_overhead (res, cpu, mem) (some rl) = (
  add res rl,
  elim (lookup "cpu" rl) as (λ _. ℤ) [ none ↦ cpu | some q ↦ plus cpu q.milli_value ],
  elim (lookup "memory" rl) as (λ _. ℤ) [ none ↦ mem | some q ↦ plus mem q.whole_value ],
)

unfoldable pub calculate_resource : Pod → Request
unfolding sum_containers max_containers add_overhead
calculate_resource pod =
    add_overhead
      (max_containers (sum_containers (no_resource, pos 0, pos 0) pod.spec.containers)
        pod.spec.init_containers)
      pod.spec.overhead

-- The loops over the scalar resources in AddPod and RemovePod.
unfoldable pub merge_scalars : (ℤ → ℤ → ℤ) → Map String ℤ → List (String × ℤ) → Map String ℤ
merge_scalars f m [] = m
merge_scalars f m ((name, q) ∷ rest) = merge_scalars f (insert name (f (scalar name m) q) m) rest

-- Requested plus or minus what a pod requests; AllowedPodNumber stays.
unfoldable pub merge : (ℤ → ℤ → ℤ) → Resource → Resource → Resource
unfolding merge_scalars
merge f r res = record r {
  milli_cpu = f r.milli_cpu res.milli_cpu;
  memory = f r.memory res.memory;
  ephemeral_storage = f r.ephemeral_storage res.ephemeral_storage;
  scalar_resources = merge_scalars f r.scalar_resources res.scalar_resources;
}
