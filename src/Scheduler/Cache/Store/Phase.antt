-- ===== src/Scheduler/Cache/Store/Phase.antt =====
-- The pods of the cache as a state machine: a pod is absent, assumed or added.
use cloud_prophet.Prelude.{
  ℕ, ◌≡◌, ◌≢◌, refl, sym, ◌∙◌, ap, String, Bool, true, false, Option, none, some, List, [], ◌∷◌,
  arith, if◌then◌else◌, string_eq, ◌===◌, Option-cases, Bool-cases, inl, inr, ◌⊎◌, ok, Returns,
  returns, Returns-bind, value,
}
use cloud_prophet.Prelude.Int.{ℤ, ◌+ℤ◌}
use cloud_prophet.Prelude.Map.{
  Map, lookup, insert, lookup-insert, lookup-insert_self, lookup-delete,
}
use cloud_prophet.Prelude.Map
use cloud_prophet.Scheduler.Pod.{Pod, get_pod_key}
use cloud_prophet.Scheduler.NodeInfo.{NodeInfo, find_key}
use cloud_prophet.Scheduler.NodeInfo
use cloud_prophet.Scheduler.Cache.Store.{
  SchedulerCache, NodeInfoListItem, PodState, already_cached, already_added, assumed,
  add_pod_to_node, remove_pod_from_node, move_node_info_to_head, remove_node_info_from_list,
  settle_node, assume_pod, finish_binding, forget_pod, add_pod, drop_state, fresh_state, is_head,
  tick, with_key,
}

pub data Phase : Type 0 where
  absent pending bound : Phase

abbrev pub phase_of : Option PodState → Bool → Phase
phase_of none b = absent
phase_of (some s) true = pending
phase_of (some s) false = bound

abbrev pub flag : Option Bool → Bool
flag o = elim o as (λ _. Bool) [ none ↦ false | some b ↦ b ]

-- AssumePod makes a pod pending, AddPod bound.
abbrev pub phase : SchedulerCache → String → Phase
phase c k = phase_of (lookup k c.pod_states) (assumed c k)

-- Only the phase of the key `k` changes.
abbrev pub Moves : SchedulerCache → String → Phase → SchedulerCache → Type 0
Moves c k to d = (j : String) → phase d j ≡ (if k === j then to else phase c j)

-- Two caches that agree on the states of the pods.
abbrev pub Agree : SchedulerCache → SchedulerCache → Type 0
Agree c d = (d.pod_states ≡ c.pod_states) × (d.assumed_pods ≡ c.assumed_pods)

head-Agree : (c : SchedulerCache) (name : String) → Agree c (move_node_info_to_head c name)
unfolding move_node_info_to_head
head-Agree c name = elim (Option-cases (lookup name c.nodes)) [
  | inl nothing ↦ rw (nothing, move_node_info_to_head) (refl, refl)
  | inr (item, there) ↦ elim (Bool-cases (is_head c name)) [
    | inl top ↦ rw (there, top, move_node_info_to_head) (refl, refl)
    | inr below ↦ rw (there, below, move_node_info_to_head) (refl, refl)
  ]
]

list-Agree : (c : SchedulerCache) (name : String) → Agree c (remove_node_info_from_list c name)
unfolding remove_node_info_from_list
list-Agree c name = elim (Option-cases (lookup name c.nodes)) [
  | inl nothing ↦ rw (nothing, remove_node_info_from_list) (refl, refl)
  | inr (item, there) ↦ rw (there, remove_node_info_from_list) (refl, refl)
]

pub add_pod_to_node-Agree : (c : SchedulerCache) (pod : Pod) → Agree c (add_pod_to_node c pod)
unfolding add_pod_to_node
add_pod_to_node-Agree c pod = head-Agree _ pod.spec.node_name

pub List-cases : (ps : List Pod) → (ps ≡ []) ⊎ ((p : Pod) × (rest : List Pod) × (ps ≡ p ∷ rest))
List-cases [] = inl refl
List-cases (p ∷ ps) = inr (p, ps, refl)

settle_node-Agree :
    (c : SchedulerCache) (name : String) (info : NodeInfo) → Agree c (settle_node c name info)
unfolding settle_node
settle_node-Agree c name info = elim (List-cases info.pods) [
  | inr (p, ps, some_pods) ↦ rw (some_pods, settle_node) (head-Agree c name)
  | inl no_pods ↦ elim (Option-cases info.node) [
    | inl ghost ↦ rw (no_pods, ghost, settle_node) (list-Agree c name)
    | inr (n, real) ↦ rw (no_pods, real, settle_node) (head-Agree c name)
  ]
]

-- The node of the pod holds a pod with its key.
pub record Held (c : SchedulerCache) (pod : Pod) (k : String) : Type 0 where
  pub item : NodeInfoListItem
  pub index : ℕ
  pub at_node : lookup pod.spec.node_name c.nodes ≡ some item
  pub at_index : find_key k item.info.pods ≡ some index

-- removePod of a pod that its node holds returns no error, and touches no state of a pod.
pub remove_pod_from_node-Agree :
    (c : SchedulerCache) (pod : Pod) (k : String)
    → get_pod_key pod ≡ value k
    → Held c pod k
    → Returns (λ (d, e). (e ≡ none) × Agree c d) (remove_pod_from_node c pod)
unfolding remove_pod_from_node NodeInfo.remove_pod
remove_pod_from_node-Agree c pod k key h =
    rw (h.at_node, key, h.at_index, remove_pod_from_node, NodeInfo.remove_pod)
      (returns (
        refl,
        settle_node-Agree _ pod.spec.node_name (
            NodeInfo.take_pod
              (record h.item.info {
                pods_with_affinity = NodeInfo.drop_key k h.item.info.pods_with_affinity;
              })
              pod h.index (tick c)),
      ))

-- A write of the state of one pod, on the two maps.
pub set-Moves :
    (c : SchedulerCache) (k : String) (s : PodState) (b : Bool) (states : Map String PodState)
    (flags : Map String Bool)
    → states ≡ insert k s c.pod_states
    → ((j : String)
        → flag (lookup j flags) ≡ (if k === j then b else flag (lookup j c.assumed_pods)))
    → (j : String)
    → phase_of (lookup j states) (flag (lookup j flags))
      ≡ (if k === j then phase_of (some s) b else phase c j)
set-Moves c k s b states flags e a j =
    rw (a j, e, lookup-insert k j s c.pod_states)
      (elim (Bool-cases (k === j)) [ inl same ↦ rw same refl | inr other ↦ rw other refl ])

pub drop-Moves :
    (c : SchedulerCache) (k : String) (states : Map String PodState) (flags : Map String Bool)
    → states ≡ Map.delete k c.pod_states
    → ((j : String)
        → flag (lookup j flags) ≡ (if k === j then false else flag (lookup j c.assumed_pods)))
    → (j : String)
    → phase_of (lookup j states) (flag (lookup j flags)) ≡ (if k === j then absent else phase c j)
drop-Moves c k states flags e a j =
    rw (a j, e, lookup-delete k j c.pod_states)
      (elim (Bool-cases (k === j)) [ inl same ↦ rw same refl | inr other ↦ rw other refl ])

assumed-insert :
    (k j : String) (b : Bool) (m : Map String Bool)
    → flag (lookup j (insert k b m)) ≡ (if k === j then b else flag (lookup j m))
assumed-insert k j b m = rw (lookup-insert k j b m) (ground arith)

pub assumed-delete :
    (k j : String) (m : Map String Bool)
    → flag (lookup j (Map.delete k m)) ≡ (if k === j then false else flag (lookup j m))
assumed-delete k j m = rw (lookup-delete k j m) (ground arith)

pub unassumed :
    (c : SchedulerCache) (k : String)
    → assumed c k ≡ false
    → (j : String)
    → flag (lookup j c.assumed_pods) ≡ (if k === j then false else flag (lookup j c.assumed_pods))
unassumed c k clear j = elim (Bool-cases (k === j)) [
  | inl here ↦ rw here (rw (sym ((string_eq.beq_iff k j).0 here)) clear)
  | inr other ↦ rw other refl
]

module _ (c : SchedulerCache) (pod : Pod) (k : String) (key : get_pod_key pod ≡ value k) where
  phase-absent : phase c k ≡ absent → lookup k c.pod_states ≡ none
  phase-absent p = elim (Option-cases (lookup k c.pod_states)) [
    | inl nothing ↦ nothing
    | inr (s, there) ↦
        let clash : phase_of (some s) (assumed c k) ≡ absent = rw there at p in
        absurd (not_absent s (assumed c k) clash)
  ]
    where
      not_absent : (s : PodState) (b : Bool) → phase_of (some s) b ≢ absent
      not_absent s true e = cc
      not_absent s false e = cc

  -- AssumePod of a pod that is absent makes it pending, and is refused otherwise.
  pub assume_pod-Moves :
      phase c k ≡ absent → Returns (λ (d, e). (e ≡ none) × Moves c k pending d) (assume_pod c pod)
  unfolding assume_pod fresh_state
  assume_pod-Moves p =
      let none_there = phase-absent p in
      let (same_states, same_assumed) = add_pod_to_node-Agree c pod in
      rw (key, none_there, assume_pod, with_key)
        (returns (
          refl,
          set-Moves c k (fresh_state pod) true _ _ (ap (insert k (fresh_state pod)) same_states)
              λ j.
                ap (λ m. flag (lookup j (insert k true m))) same_assumed
                ∙ assumed-insert k j true c.assumed_pods,
        ))

  pub assume_pod-refused : phase c k ≢ absent → assume_pod c pod ≡ ok (c, some already_cached)
  unfolding assume_pod
  assume_pod-refused p = elim (Option-cases (lookup k c.pod_states)) [
    | inl nothing ↦ absurd (p (rw nothing))
    | inr (s, there) ↦ rw (key, there, assume_pod, with_key) refl
  ]

  -- ForgetPod of a pod that is pending on the node that holds it makes it absent.
  pub forget_pod-Moves :
      (s : PodState)
      → lookup k c.pod_states ≡ some s
      → assumed c k ≡ true
      → (s.pod.spec.node_name === pod.spec.node_name) ≡ true
      → Held c pod k
      → Returns (λ (d, e). (e ≡ none) × Moves c k absent d) (forget_pod c pod)
  unfolding forget_pod drop_state
  forget_pod-Moves s there waits same h =
      rw (key, there, waits, same, forget_pod, with_key)
        (Returns-bind (remove_pod_from_node-Agree c pod k key h) λ (d, e) (fine, (states, flags)).
          rw (fine, drop_state)
            (returns (
              refl,
              drop-Moves c k _ _ (ap (Map.delete k) states) λ j.
                  ap (λ m. flag (lookup j (Map.delete k m))) flags
                  ∙ assumed-delete k j c.assumed_pods,
            )))

  -- AddPod of a pod that is absent makes it bound.
  pub add_pod-Moves :
      phase c k ≡ absent
      → assumed c k ≡ false
      → Returns (λ (d, e). (e ≡ none) × Moves c k bound d) (add_pod c pod)
  unfolding add_pod fresh_state
  add_pod-Moves p clear =
      let none_there = phase-absent p in
      let (same_states, same_assumed) = add_pod_to_node-Agree c pod in
      rw (key, none_there, add_pod, with_key)
        (returns (
          refl,
          set-Moves c k (fresh_state pod) false _ _ (ap (insert k (fresh_state pod)) same_states)
              λ j. ap (λ m. flag (lookup j m)) same_assumed ∙ unassumed c k clear j,
        ))

  -- AddPod of a pod that is bound is refused, and changes nothing.
  pub add_pod-refused : phase c k ≡ bound → add_pod c pod ≡ ok (c, some already_added)
  unfolding add_pod
  add_pod-refused p = elim (Option-cases (lookup k c.pod_states)) [
    | inl nothing ↦ absurd (absent_not_bound (rw nothing at p))
    | inr (s, there) ↦ elim (Bool-cases (assumed c k)) [
      | inl waits ↦ absurd (pending_not_bound (rw (there, waits) at p))
      | inr clear ↦ rw (key, there, clear, add_pod, with_key) refl
    ]
  ]
    where
      absent_not_bound : absent ≢ bound
      absent_not_bound e = cc

      pending_not_bound : pending ≢ bound
      pending_not_bound e = cc

  -- FinishBinding of a pending pod starts its time to live, and moves no pod.
  pub finish_binding-Moves :
      (s : PodState) (now : ℤ)
      → lookup k c.pod_states ≡ some s
      → assumed c k ≡ true
      → Returns
          (λ (d, e).
            (e ≡ none)
            × (lookup k d.pod_states
                ≡ some (record s { binding_finished = true; deadline = some (now +ℤ c.ttl) }))
            × Moves c k pending d)
          (finish_binding c pod now)
  unfolding finish_binding
  finish_binding-Moves s now there waits =
      let t = record s { binding_finished = true; deadline = some (now +ℤ c.ttl) } in
      rw (key, there, waits, finish_binding, with_key)
        (returns (refl, lookup-insert_self k t c.pod_states, set-Moves c k t true _ _ refl still))
    where
      still :
          (j : String)
          → flag (lookup j c.assumed_pods)
            ≡ (if k === j then true else flag (lookup j c.assumed_pods))
      still j = elim (Bool-cases (k === j)) [
        | inl here ↦ rw here (rw (sym ((string_eq.beq_iff k j).0 here)) waits)
        | inr other ↦ rw other refl
      ]
