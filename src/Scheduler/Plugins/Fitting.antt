-- ===== src/Scheduler/Plugins/Fitting.antt =====
-- What the Fit plugin of scheduler/framework/plugins/noderesources/fit.go lets through is what a node has
-- room for.
use cloud_prophet.Prelude.{
  ◌≡◌, refl, sym, ap, ◌∙◌, ◌+◌, String, Bool, true, ◌⊎◌, inl, inr, List, [], ◌∷◌, length,
  length-append, Bool-cases, Option-cases, arith,
}
use cloud_prophet.Prelude.Int.{ℤ, pos, wrap64, ltb_ℤ, ◌+ℤ◌, ◌≤ℤ◌, +ℤ_parts, eq_of_parts}
use cloud_prophet.Scheduler.Pod.{Pod, Container}
use cloud_prophet.Scheduler.NodeInfo.{NodeInfo, add_pod}
use cloud_prophet.Scheduler.NodeInfo.Resources.{
  Resource, Request, no_resource, plus, merge, add, sum_containers, max_containers, add_overhead,
  calculate_resource,
}
use cloud_prophet.Scheduler.Plugins.Filters.{
  InsufficientResource, add_requests, max_requests, compute_pod_resource_request, check_resource,
  requests_nothing, fits_request,
}

sum_containers-request :
    (cs : List Container) (acc : Request) → (sum_containers acc cs).0 ≡ add_requests acc.0 cs
unfolding sum_containers add_requests
sum_containers-request [] acc = refl
sum_containers-request (c ∷ cs) acc = sum_containers-request cs _

max_containers-request :
    (cs : List Container) (acc : Request) → (max_containers acc cs).0 ≡ max_requests acc.0 cs
unfolding max_containers max_requests
max_containers-request [] acc = refl
max_containers-request (c ∷ cs) acc = max_containers-request cs _

-- The Fit plugin computes the same requests of a pod as AddPod adds to a node.
pub compute-calculate : (pod : Pod) → compute_pod_resource_request pod ≡ (calculate_resource pod).0
unfolding compute_pod_resource_request calculate_resource add_overhead
compute-calculate pod =
    let sums = sum_containers-request pod.spec.containers (no_resource, pos 0, pos 0) in
    let all =
      max_containers-request pod.spec.init_containers
        (sum_containers (no_resource, pos 0, pos 0) pod.spec.containers) in
    let same = all ∙ ap (λ r. max_requests r pod.spec.init_containers) sums in
    elim (Option-cases pod.spec.overhead) [
      | inl e ↦ rw (e, add_overhead) (sym same)
      | inr (overhead, e) ↦ rw (e, add_overhead) (ap (λ r. add r overhead) (sym same))
    ]

plus_comm : (a b : ℤ) → plus a b ≡ plus b a
plus_comm a b =
    ap wrap64 (eq_of_parts (a +ℤ b) (b +ℤ a) (omega (arith, +ℤ_parts a b, +ℤ_parts b a)))

check_resource-none :
    (name reason : String) (request used capacity : ℤ) (rest : List InsufficientResource)
    → check_resource name reason request used capacity rest ≡ []
    → (plus used request ≤ℤ capacity) × (rest ≡ [])
unfolding check_resource
check_resource-none name reason request used capacity rest e =
    rw (plus_comm used request) (elim (Bool-cases (ltb_ℤ capacity (plus request used))) [
      | inl over ↦ absurd (ground arith)
      | inr fine ↦ (ground arith, ground arith)
    ])

fits_request-none :
    (ignored : String → Bool) (r : Resource) (n : NodeInfo)
    → fits_request ignored r n ≡ []
    → (pos (length n.pods + 1) ≤ℤ n.allocatable.allowed_pod_number)
      × ((requests_nothing r ≡ true)
          ⊎ ((plus n.requested.milli_cpu r.milli_cpu ≤ℤ n.allocatable.milli_cpu)
              × (plus n.requested.memory r.memory ≤ℤ n.allocatable.memory)
              × (plus n.requested.ephemeral_storage r.ephemeral_storage
                  ≤ℤ n.allocatable.ephemeral_storage)))
unfolding fits_request
fits_request-none ignored r n e =
    elim (Bool-cases (ltb_ℤ n.allocatable.allowed_pod_number (pos (length n.pods + 1)))) [
      | inl over ↦ absurd (ground arith)
      | inr fine ↦ elim (Bool-cases (requests_nothing r)) [
        | inl nothing ↦ (ground arith, inl nothing)
        | inr some_thing ↦
            let (cpu, after_cpu) =
              check_resource-none "cpu" "Insufficient cpu" _ _ _ _ (rw (fine, some_thing) at e) in
            let (memory, after_memory) =
              check_resource-none "memory" "Insufficient memory" _ _ _ _ after_cpu in
            let (storage, after) =
              check_resource-none "ephemeral-storage" "Insufficient ephemeral-storage" _ _ _ _
                after_memory in
            (ground arith, inr (cpu, memory, storage))
      ]
    ]

-- The requests on a node stay within what can be allocated.
abbrev pub WithinRoom : NodeInfo → Type 0
WithinRoom n =
    (n.requested.milli_cpu ≤ℤ n.allocatable.milli_cpu)
    × (n.requested.memory ≤ℤ n.allocatable.memory)
    × (n.requested.ephemeral_storage ≤ℤ n.allocatable.ephemeral_storage)

-- If the Fit plugin finds no resource of a node insufficient for a pod, then the node with the pod added to
-- it has at most the allowed number of pods, and the cpu, the memory and the ephemeral storage that are
-- requested on it are within what it can allocate, unless the pod requests nothing at all.
pub add_pod-WithinRoom :
    (ignored : String → Bool) (n : NodeInfo) (pod : Pod) (generation : ℤ)
    → fits_request ignored (compute_pod_resource_request pod) n ≡ []
    → (pos (length (add_pod n pod generation).pods) ≤ℤ n.allocatable.allowed_pod_number)
      × ((requests_nothing (compute_pod_resource_request pod) ≡ true)
          ⊎ WithinRoom (add_pod n pod generation))
unfolding fits_request add_pod merge
add_pod-WithinRoom ignored n pod generation e =
    let (count, room) = fits_request-none ignored (compute_pod_resource_request pod) n e in
    let same = compute-calculate pod in
    (
      rw (length-append n.pods (pod ∷ [])) count,
      elim room [ inl nothing ↦ inl nothing | inr within ↦ inr (rw (sym same) within) ],
    )
