-- ===== src/Scheduler/Cache/Store/Transitions.antt =====
-- RemovePod and AddPod of scheduler/internal/cache/cache.go, on the states of the pods and on the pods of
-- the nodes at once.
use cloud_prophet.Prelude.{
  ◌≡◌, refl, sym, ap, subst, ◌∙◌, String, true, false, none, some, [], ◌∷◌, ◌++◌, string_eq, ◌===◌,
  ◌⊎◌, inl, inr, Bool-cases, beq_refl, Returns, returns, Returns-bind, Returns-both, value,
}
use cloud_prophet.Prelude.Map.{lookup, insert, lookup-insert_self}
use cloud_prophet.Prelude.Map
use cloud_prophet.Scheduler.Pod.{Pod, get_pod_key}
use cloud_prophet.Scheduler.NodeInfo.SwapOut.{LosesPod}
use cloud_prophet.Scheduler.Cache.Store.{
  SchedulerCache, PodState, assumed, remove_pod, add_pod, drop_added, confirm, with_key,
}
use cloud_prophet.Scheduler.Cache.Store.Phase.{
  Held, Moves, absent, bound, flag, remove_pod_from_node-Agree, add_pod_to_node-Agree, drop-Moves,
  set-Moves, unassumed, assumed-delete,
}
use cloud_prophet.Scheduler.Cache.Store.Pods.{
  pods_on, SamePods, LeavesNode, GainsPod, remove_pod_from_node-LeavesNode,
  add_pod_to_node-GainsPod,
}

other_way : (a b : String) → (a === b) ≡ false → (b === a) ≡ false
other_way a b e = elim (Bool-cases (b === a)) [
  | inr no_match ↦ no_match
  | inl same ↦
      let clash = (string_eq.beq_iff a b).1 (sym ((string_eq.beq_iff b a).0 same)) in absurd (cc)
]

-- A pod with the key `k` leaves the node of `old`, `new` is the last one on its own node, and all other nodes
-- keep their pods.
pub record ChangesNode (c : SchedulerCache) (old new : Pod) (k : String) (d : SchedulerCache)
    : Type 0 where
  pub different : (old.spec.node_name === new.spec.node_name) ≡ false
  pub leaves : LosesPod k (pods_on c old.spec.node_name) (pods_on d old.spec.node_name)
  pub arrives : pods_on d new.spec.node_name ≡ pods_on c new.spec.node_name ++ new ∷ []
  pub others :
      (name : String)
      → (old.spec.node_name === name) ≡ false
      → (new.spec.node_name === name) ≡ false
      → pods_on d name ≡ pods_on c name

pub LeavesNode-ChangesNode :
    (c mid d : SchedulerCache) (old new : Pod) (k : String)
    → (old.spec.node_name === new.spec.node_name) ≡ false
    → LeavesNode c old k mid
    → GainsPod mid new d
    → ChangesNode c old new k d
LeavesNode-ChangesNode c mid d old new k differ (lost, rest) gains = record {
  different = differ;
  leaves =
      subst (LosesPod k (pods_on c old.spec.node_name))
        (sym (
          gains old.spec.node_name
          ∙ rw (other_way old.spec.node_name new.spec.node_name differ) refl))
        lost;
  arrives =
      gains new.spec.node_name
      ∙ rw (beq_refl new.spec.node_name) (ap (λ l. l ++ new ∷ []) (rest new.spec.node_name differ));
  others = λ name not_old not_new. gains name ∙ rw not_new (rest name not_old);
}

-- Where the pods are after AddPod has confirmed an assumed pod.
abbrev pub Placed : SchedulerCache → Pod → Pod → String → SchedulerCache → Type 0
Placed c old new k d =
    (((old.spec.node_name === new.spec.node_name) ≡ true) × SamePods c d)
    ⊎ ChangesNode c old new k d

module _ (c : SchedulerCache) (pod : Pod) (k : String) (key : get_pod_key pod ≡ value k) where
  -- RemovePod of an added pod, with the node that it was added with, takes the pod out of the cache: its
  -- phase is absent, a pod with its key is gone from the list of its node, the other nodes keep their pods,
  -- and the phase of every other pod stays.
  pub remove_pod-Leaves :
      (s : PodState)
      → lookup k c.pod_states ≡ some s
      → assumed c k ≡ false
      → (s.pod.spec.node_name === pod.spec.node_name) ≡ true
      → get_pod_key s.pod ≡ value k
      → Held c s.pod k
      → Returns
          (λ (d, e). (e ≡ none) × Moves c k absent d × LeavesNode c s.pod k d)
          (remove_pod c pod)
  unfolding remove_pod drop_added
  remove_pod-Leaves s there bound_now same key' h =
      rw (key, there, bound_now, same, remove_pod, with_key)
        (Returns-bind
          (Returns-both (remove_pod_from_node-Agree c s.pod k key' h)
            (remove_pod_from_node-LeavesNode c s.pod k key' h))
          λ (d, e) ((fine, (states, flags)), left).
            rw (fine, drop_added)
              (returns (
                refl,
                drop-Moves c k _ _ (ap (Map.delete k) states)
                    λ j. ap (λ m. flag (lookup j m)) flags ∙ unassumed c k bound_now j,
                left,
              )))

  -- AddPod of an assumed pod confirms it. Its phase is then bound, its state has the new pod and no deadline,
  -- and the phase of every other pod stays. If the new pod names the node of the assumed one, all nodes keep
  -- their pods. If it names another node, the assumed pod leaves its node, the new pod is the last one on
  -- its own, and all other nodes keep their pods.
  pub add_pod-Placed :
      (s : PodState)
      → lookup k c.pod_states ≡ some s
      → assumed c k ≡ true
      → get_pod_key s.pod ≡ value k
      → Held c s.pod k
      → Returns
          (λ (d, e).
            (e ≡ none)
            × Moves c k bound d
            × (lookup k d.pod_states ≡ some (record s { deadline = none; pod = pod }))
            × Placed c s.pod pod k d)
          (add_pod c pod)
  unfolding add_pod confirm
  add_pod-Placed s there waits key' h =
      let t = record s { deadline = none; pod = pod } in
      elim (Bool-cases (s.pod.spec.node_name === pod.spec.node_name)) [
        | inl same ↦
            rw (key, there, waits, same, add_pod, with_key, confirm)
              (returns (
                refl,
                set-Moves c k t false _ _ refl (λ j. assumed-delete k j c.assumed_pods),
                lookup-insert_self k t c.pod_states,
                inl (refl, λ name. refl),
              ))
        | inr differ ↦
            rw (key, there, waits, differ, add_pod, with_key)
              (Returns-bind
                (Returns-both (remove_pod_from_node-Agree c s.pod k key' h)
                  (remove_pod_from_node-LeavesNode c s.pod k key' h))
                λ (d, e) ((fine, (states, flags)), left).
                  let (states', flags') = add_pod_to_node-Agree d pod in
                  returns (
                    refl,
                    set-Moves c k t false _ _ (ap (insert k t) (states' ∙ states)) (λ j.
                        ap (λ m. flag (lookup j (Map.delete k m))) (flags' ∙ flags)
                        ∙ assumed-delete k j c.assumed_pods),
                    lookup-insert_self k t _,
                    inr (
                        LeavesNode-ChangesNode c d _ s.pod pod k differ left
                          (add_pod_to_node-GainsPod d pod)),
                  ))
      ]
