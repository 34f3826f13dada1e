-- ===== src/Scheduler/Cache/Nodes/Expiry.antt =====
-- The expiry of assumed pods.
use cloud_prophet.Prelude.{
  ◌≡◌, refl, String, Bool, true, false, some, List, [], ◌∷◌, ◌⊎◌, inl, inr, Bool-cases, string_eq,
  ok, Returns, returns, Returns-bind, Returns-both, Returns-map, none, if◌then◌else◌, value, ap,
  ◌∙◌,
}
use cloud_prophet.Prelude.Int.{ℤ, ltb_ℤ}
use cloud_prophet.Prelude.Map.{lookup}
use cloud_prophet.Prelude.Map
use cloud_prophet.Scheduler.Pod.{get_pod_key}
use cloud_prophet.Scheduler.Cache.Store.{SchedulerCache, PodState}
use cloud_prophet.Scheduler.Cache.Store.Phase.{
  Held, Moves, absent, flag, remove_pod_from_node-Agree, drop-Moves, assumed-delete,
}
use cloud_prophet.Scheduler.Cache.Store.Pods.{LeavesNode, remove_pod_from_node-LeavesNode}
use cloud_prophet.Scheduler.Cache.Nodes.{clean_up, clean_up_one, cleanup_assumed_pods, expire_pod}

-- The pod still binds, or its deadline has not passed.
abbrev pub Fresh : PodState → ℤ → Type 0
Fresh s now =
    (s.binding_finished ≡ false)
    ⊎ ((deadline : ℤ) × (s.deadline ≡ some deadline) × (ltb_ℤ deadline now ≡ false))

-- Every key of the set has the state of a pod that is not to expire.
abbrev pub AllFresh : SchedulerCache → ℤ → List (String × Bool) → Type 0
AllFresh c now [] = Unit {0}
AllFresh c now ((k, b) ∷ keys) =
    ((s : PodState) × (lookup k c.pod_states ≡ some s) × Fresh s now) × AllFresh c now keys

clean_up_one-Fresh :
    (c : SchedulerCache) (k : String) (now : ℤ) (s : PodState)
    → lookup k c.pod_states ≡ some s
    → Fresh s now
    → clean_up_one c k now ≡ ok c
unfolding clean_up_one
clean_up_one-Fresh c k now s there (inl binds) = rw (there, binds, clean_up_one) refl
clean_up_one-Fresh c k now s there (inr (deadline, at, ahead)) =
    elim (Bool-cases s.binding_finished) [
      | inl over ↦ rw (there, over, at, ahead, clean_up_one) refl
      | inr binds ↦ rw (there, binds, clean_up_one) refl
    ]

clean_up-AllFresh :
    (c : SchedulerCache) (keys : List (String × Bool)) (now : ℤ)
    → AllFresh c now keys
    → clean_up c keys now ≡ ok c
unfolding clean_up
clean_up-AllFresh c [] now h = refl
clean_up-AllFresh c ((k, b) ∷ keys) now h =
    let (s, there, fresh) = h.0 in
    rw (clean_up_one-Fresh c k now s there fresh) (clean_up-AllFresh c keys now h.1)

-- An assumed pod whose binding still runs, or whose deadline has not passed, does not expire: a
-- clean-up that meets only such pods returns and changes nothing.
pub cleanup_assumed_pods-AllFresh :
    (c : SchedulerCache) (now : ℤ)
    → AllFresh c now c.assumed_pods
    → cleanup_assumed_pods c now ≡ ok c
unfolding cleanup_assumed_pods
cleanup_assumed_pods-AllFresh c now h = clean_up-AllFresh c c.assumed_pods now h

-- Once the binding is finished, the pod has a deadline.
abbrev pub HasDeadline : PodState → Type 0
HasDeadline s = (s.binding_finished ≡ false) ⊎ ((deadline : ℤ) × (s.deadline ≡ some deadline))

-- The binding is finished and the deadline is before the time of the clean-up.
abbrev pub is_late : PodState → ℤ → Bool
is_late s now =
    if s.binding_finished
    then elim (s.deadline) as (λ _. Bool) [ none ↦ false | some deadline ↦ ltb_ℤ deadline now ]
    else false

-- What the clean-up does with the pod of the state `s`.
abbrev pub CleansUp : SchedulerCache → String → ℤ → PodState → SchedulerCache → Type 0
CleansUp c k now s d =
    ((is_late s now ≡ true) × Moves c k absent d × LeavesNode c s.pod k d)
    ⊎ ((is_late s now ≡ false) × (d ≡ c))

expire-CleansUp :
    (c : SchedulerCache) (k : String) (s : PodState)
    → get_pod_key s.pod ≡ value k
    → Held c s.pod k
    → Returns (λ d. Moves c k absent d × LeavesNode c s.pod k d) (expire_pod k s c)
unfolding expire_pod
expire-CleansUp c k s key h =
    (Returns-bind
      (Returns-both (remove_pod_from_node-Agree c s.pod k key h)
        (remove_pod_from_node-LeavesNode c s.pod k key h))
      λ (d, e) ((fine, (states, flags)), left). rw fine (
        returns (
          drop-Moves c k _ _ (ap (Map.delete k) states) λ j.
              ap (λ m. flag (lookup j (Map.delete k m))) flags ∙ assumed-delete k j c.assumed_pods,
          left,
        )))

-- The clean-up of an assumed pod returns. If the binding of the pod is finished and its deadline is before the
-- time of the clean-up, the pod is out of the cache: its phase is absent, a pod with its key is gone from
-- the list of its node, the other nodes keep their pods, and the phase of every other pod stays. In all
-- other cases the cache stays as it is.
pub clean_up_one-CleansUp :
    (c : SchedulerCache) (k : String) (now : ℤ) (s : PodState)
    → lookup k c.pod_states ≡ some s
    → HasDeadline s
    → get_pod_key s.pod ≡ value k
    → Held c s.pod k
    → Returns (CleansUp c k now s) (clean_up_one c k now)
unfolding clean_up_one
clean_up_one-CleansUp c k now s there has_deadline key h = elim (Bool-cases s.binding_finished) [
  | inr binds ↦ rw (there, binds, clean_up_one) (returns (inr (refl, refl)))
  | inl over ↦ elim has_deadline [
    | inl binds ↦ absurd (cc)
    | inr (deadline, at) ↦ elim (Bool-cases (ltb_ℤ deadline now)) [
      | inl late ↦
          rw (there, over, at, late, clean_up_one)
            (Returns-map (expire-CleansUp c k s key h) λ d gone. inl (late, gone.0, gone.1))
      | inr ahead ↦ rw (there, over, at, ahead, clean_up_one) (returns (inr (ahead, refl)))
    ]
  ]
]
