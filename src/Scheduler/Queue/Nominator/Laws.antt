-- ===== src/Scheduler/Queue/Nominator/Laws.antt =====
-- The two maps of nominatedPodMap agree after every operation.
use cloud_prophet.Prelude.{
  ℕ, ◌+◌, ◌-◌, ◌≡◌, refl, ◌∙◌, ap, inl, inr, String, true, false, Option, none, some, List, [], ◌∷◌,
  ◌++◌, arith, if◌then◌else◌, string_eq, ◌===◌, beq_refl, Bool-cases, Option-cases,
}
use cloud_prophet.Prelude.Map.{Map, lookup, insert, lookup-insert, lookup-delete}
use cloud_prophet.Prelude.Map
use cloud_prophet.Scheduler.Pod.{Pod}
use cloud_prophet.Scheduler.Queue.Nominator.{
  NominatedPodMap, new_pod_nominator, pods_in, nominated_pods_for_node, has_uid, remove_uid,
  store_or_delete, drop_from, delete, target, nominate, add, reserved, update_nominated_pod,
}

-- How many pods of a list have a UID.
pub count_uid : String → List Pod → ℕ
count_uid u [] = 0
count_uid u (p ∷ ps) = (if p.uid === u then 1 else 0) + count_uid u ps

abbrev pub is_node : Option String → String → ℕ
is_node none n = 0
is_node (some m) n = if m === n then 1 else 0

-- A pod is listed once under the node of its UID, and under no other.
abbrev pub IsConsistent : NominatedPodMap → Type 0
IsConsistent npm =
    (u n : String)
    → count_uid u (nominated_pods_for_node npm n) ≡ is_node (lookup u npm.nominated_pod_to_node) n

has_uid-count : (u : String) (ps : List Pod) → has_uid u ps ≡ false → count_uid u ps ≡ 0
unfolding has_uid count_uid
has_uid-count u [] e = refl
has_uid-count u (p ∷ ps) e = ground (arith, has_uid-count u ps)

count-has_uid : (u : String) (ps : List Pod) → count_uid u ps ≡ 0 → has_uid u ps ≡ false
unfolding has_uid count_uid
count-has_uid u [] e = refl
count-has_uid u (p ∷ ps) e = ground (arith, count-has_uid u ps)

count-remove_uid :
    (u v : String) (ps : List Pod)
    → count_uid v (remove_uid u ps) ≡ (if u === v then count_uid v ps - 1 else count_uid v ps)
unfolding remove_uid count_uid
count-remove_uid u v [] = ground arith
count-remove_uid u v (p ∷ ps) = ground (
  arith,
  count-remove_uid u v ps,
  string_eq.beq_iff p.uid u,
  string_eq.beq_iff p.uid v,
  string_eq.beq_iff u v,
)

count-append :
    (u : String) (ps : List Pod) (p : Pod)
    → count_uid u (ps ++ p ∷ []) ≡ count_uid u ps + (if p.uid === u then 1 else 0)
unfolding count_uid
count-append u [] p = omega arith
count-append u (q ∷ ps) p = omega (arith, count-append u ps p)

pods_in-store_or_delete :
    (n k : String) (ps : List Pod) (m : Map String (List Pod))
    → pods_in k (store_or_delete n ps m) ≡ (if n === k then ps else pods_in k m)
unfolding pods_in store_or_delete
pods_in-store_or_delete n k [] m = ground (arith, lookup-delete n k m)
pods_in-store_or_delete n k (p ∷ ps) m = ground (arith, lookup-insert n k (p ∷ ps) m)

pods_in-insert :
    (n k : String) (ps : List Pod) (m : Map String (List Pod))
    → pods_in k (insert n ps m) ≡ (if n === k then ps else pods_in k m)
unfolding pods_in
pods_in-insert n k ps m = ground (arith, lookup-insert n k ps m)

count-drop_from :
    (n u k v : String) (m : Map String (List Pod))
    → count_uid v (pods_in k (drop_from n u m)) ≡ (
        if n === k
        then (if u === v then count_uid v (pods_in k m) - 1 else count_uid v (pods_in k m))
        else count_uid v (pods_in k m))
unfolding drop_from
count-drop_from n u k v m = elim (Bool-cases (has_uid u (pods_in n m))) [
  | inl found ↦
      rw (found, pods_in-store_or_delete)
        (ground (arith, count-remove_uid u v (pods_in n m), string_eq.beq_iff n k))
  | inr absent ↦ rw absent (
      ground
        (arith, has_uid-count u (pods_in n m) absent, string_eq.beq_iff n k, string_eq.beq_iff u v))
]

delete-absent :
    (npm : NominatedPodMap) (p : Pod)
    → lookup p.uid npm.nominated_pod_to_node ≡ none
    → delete npm p ≡ npm
unfolding delete
delete-absent npm p e = rw (e, delete)

dropped : NominatedPodMap → String → String → NominatedPodMap
dropped npm n u = record {
  nominated_pods = drop_from n u npm.nominated_pods;
  nominated_pod_to_node = Map.delete u npm.nominated_pod_to_node;
}

delete-present :
    (npm : NominatedPodMap) (p : Pod) (n : String)
    → lookup p.uid npm.nominated_pod_to_node ≡ some n
    → delete npm p ≡ dropped npm n p.uid
unfolding delete dropped
delete-present npm p n e = rw (e, delete)

-- No node lists the pod after delete, and the others stay where they were.
pub count-delete :
    (npm : NominatedPodMap) (p : Pod) (u n : String)
    → IsConsistent npm
    → count_uid u (nominated_pods_for_node (delete npm p) n)
      ≡ (if p.uid === u then 0 else count_uid u (nominated_pods_for_node npm n))
unfolding nominated_pods_for_node dropped
count-delete npm p u n c = elim (Option-cases (lookup p.uid npm.nominated_pod_to_node)) [
  | inl e ↦ rw (delete-absent npm p e) (ground (arith, e, c u n, string_eq.beq_iff p.uid u))
  | inr (m, e) ↦
      rw (delete-present npm p m e, count-drop_from)
        (ground (arith, e, c u n, string_eq.beq_iff p.uid u, string_eq.beq_iff m n))
]

lookup-nominator-delete :
    (npm : NominatedPodMap) (p : Pod) (u : String)
    → lookup u (delete npm p).nominated_pod_to_node
      ≡ (if p.uid === u then none else lookup u npm.nominated_pod_to_node)
unfolding dropped
lookup-nominator-delete npm p u = elim (Option-cases (lookup p.uid npm.nominated_pod_to_node)) [
  | inl e ↦ rw (delete-absent npm p e) (ground (arith, e, string_eq.beq_iff p.uid u))
  | inr (m, e) ↦ rw (delete-present npm p m e) (lookup-delete p.uid u npm.nominated_pod_to_node)
]

-- DeleteNominatedPodIfExists keeps the two maps in agreement.
pub delete-IsConsistent :
    (npm : NominatedPodMap) (p : Pod) → IsConsistent npm → IsConsistent (delete npm p)
delete-IsConsistent npm p c u n =
    ground (arith, count-delete npm p u n c, lookup-nominator-delete npm p u, c u n)

nominate-fresh :
    (npm : NominatedPodMap) (p : Pod) (n : String)
    → count_uid p.uid (nominated_pods_for_node npm n) ≡ 0
    → nominated_pods_for_node (nominate npm p n) n ≡ nominated_pods_for_node npm n ++ p ∷ []
unfolding nominate nominated_pods_for_node
nominate-fresh npm p n e =
    rw (count-has_uid p.uid (pods_in n npm.nominated_pods) e, pods_in-insert, beq_refl)

count-nominate :
    (npm : NominatedPodMap) (p : Pod) (n u k : String)
    → count_uid p.uid (nominated_pods_for_node npm n) ≡ 0
    → count_uid u (nominated_pods_for_node (nominate npm p n) k)
      ≡ (if n === k then (if p.uid === u then 1 else 0) else 0)
        + count_uid u (nominated_pods_for_node npm k)
unfolding nominate nominated_pods_for_node
count-nominate npm p n u k e =
    rw (count-has_uid p.uid (pods_in n npm.nominated_pods) e, pods_in-insert)
      (ground (arith, count-append u (pods_in n npm.nominated_pods) p, string_eq.beq_iff n k))

nominate-IsConsistent :
    (npm : NominatedPodMap) (p : Pod) (n : String)
    → IsConsistent npm
    → lookup p.uid npm.nominated_pod_to_node ≡ none
    → IsConsistent (nominate npm p n)
nominate-IsConsistent npm p n c e u k =
    let zero_count : count_uid p.uid (nominated_pods_for_node npm n) ≡ 0 =
      ground (arith, c p.uid n, e) in
    ground (
      arith,
      count-nominate npm p n u k zero_count,
      lookup-nominate,
      c u k,
      e,
      string_eq.beq_iff p.uid u,
    )
  where
    lookup-nominate :
        lookup u (nominate npm p n).nominated_pod_to_node
        ≡ (if p.uid === u then some n else lookup u npm.nominated_pod_to_node)
    lookup-nominate = unfold nominate in lookup-insert p.uid u n npm.nominated_pod_to_node

-- AddNominatedPod keeps the two maps in agreement.
pub add-IsConsistent :
    (npm : NominatedPodMap) (p : Pod) (n : String) → IsConsistent npm → IsConsistent (add npm p n)
unfolding add
add-IsConsistent npm p n c =
    let d = delete-IsConsistent npm p c in
    let gone : lookup p.uid (delete npm p).nominated_pod_to_node ≡ none =
      lookup-nominator-delete npm p p.uid ∙ rw beq_refl in
    elim (Bool-cases (target p n === "")) [
      | inl e ↦ rw e d
      | inr e ↦ rw e (nominate-IsConsistent (delete npm p) p (target p n) d gone)
    ]

-- AddNominatedPod takes the pod from the node where it was nominated, and puts it at the end of the
-- list of the node that it is given, or else of the node that its status names.
pub add_nominates :
    (npm : NominatedPodMap) (p : Pod) (n : String)
    → IsConsistent npm
    → (target p n === "") ≡ false
    → (lookup p.uid (add npm p n).nominated_pod_to_node ≡ some (target p n))
      × (nominated_pods_for_node (add npm p n) (target p n)
          ≡ nominated_pods_for_node (delete npm p) (target p n) ++ p ∷ [])
unfolding add
add_nominates npm p n c named =
    let absent = count-delete npm p p.uid (target p n) c ∙ rw beq_refl in
    rw named (
      unfold nominate in
          Map.lookup-insert_self p.uid (target p n) (delete npm p).nominated_pod_to_node,
      nominate-fresh (delete npm p) p (target p n) absent,
    )

-- A pod with no node to go to ends up nominated nowhere.
pub add-unnamed :
    (npm : NominatedPodMap) (p : Pod) (n : String)
    → (target p n === "") ≡ true
    → add npm p n ≡ delete npm p
unfolding add
add-unnamed npm p n e = rw e

-- UpdateNominatedPod keeps the two maps in agreement.
pub update_nominated_pod-IsConsistent :
    (npm : NominatedPodMap) (old new : Pod)
    → IsConsistent npm
    → IsConsistent (update_nominated_pod npm old new)
unfolding update_nominated_pod
update_nominated_pod-IsConsistent npm old new c =
    add-IsConsistent (delete npm old) new (reserved npm old new) (delete-IsConsistent npm old c)

reserved-kept :
    (npm : NominatedPodMap) (old new : Pod) (n : String)
    → old.status.nominated_node_name ≡ ""
    → new.status.nominated_node_name ≡ ""
    → lookup old.uid npm.nominated_pod_to_node ≡ some n
    → reserved npm old new ≡ n
unfolding reserved
reserved-kept npm old new n a b e = rw (a, b) (rw (beq_refl {K = String} "") (ground (arith, e)))

-- When neither pod names a node, an update keeps the node that was reserved in memory.
pub update_nominated_pod-reserved :
    (npm : NominatedPodMap) (old new : Pod) (n : String)
    → IsConsistent npm
    → old.status.nominated_node_name ≡ ""
    → new.status.nominated_node_name ≡ ""
    → lookup old.uid npm.nominated_pod_to_node ≡ some n
    → (n === "") ≡ false
    → lookup new.uid (update_nominated_pod npm old new).nominated_pod_to_node ≡ some n
unfolding update_nominated_pod
update_nominated_pod-reserved npm old new n c a b e named =
    let goes : target new (reserved npm old new) ≡ n =
      ap (target new) (reserved-kept npm old new n a b e) ∙ unfold target in rw named in
    (add_nominates (delete npm old) new (reserved npm old new) (delete-IsConsistent npm old c)
      (ap (λ x. x === "") goes ∙ named)).0
    ∙ ap some goes

-- A new nominator lists no pod.
pub new_pod_nominator-IsConsistent : IsConsistent new_pod_nominator
unfolding new_pod_nominator nominated_pods_for_node lookup count_uid pods_in
new_pod_nominator-IsConsistent u n = refl
