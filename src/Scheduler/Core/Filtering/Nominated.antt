-- ===== src/Scheduler/Core/Filtering/Nominated.antt =====
-- When scheduler/core/generic_scheduler.go lets a pod on a node that has nominated pods.
use cloud_prophet.Prelude.{
  ◌≡◌, refl, String, Bool, true, false, ◌&&◌, Option, none, some, List, [], ◌∷◌, is_empty,
  string_eq, ◌===◌, inl, inr, Bool-cases, Option-cases, ◌∙◌, ap, sym, subst, if◌then◌else◌, Run, ok,
  Result, value, error, Returns, returns, Returns-bind, Returns-map, Returns-if, ◌>>=◌, arith,
}
use cloud_prophet.Prelude.Int.{ℤ, leb_ℤ}
use cloud_prophet.Scheduler.Pod.{Pod, get_pod_priority}
use cloud_prophet.Scheduler.Node.{Node}
use cloud_prophet.Scheduler.NodeInfo.{NodeInfo, add_pod}
use cloud_prophet.Scheduler.Framework.Plugins.{FrameworkImpl}
use cloud_prophet.Scheduler.Framework.Status.{as_error}
use cloud_prophet.Scheduler.Framework.Runtime.{run_pre_filter_extension_add_pod}
use cloud_prophet.Scheduler.Framework.Runtime.Filters.{all_pass, merge-run_filter_plugins}
use cloud_prophet.Scheduler.Core.Filtering.{
  Verdict, yields_to, add_nominated, add_nominated_pods, filter_once, pod_passes_filters_on_node,
}

-- A verdict with an error lets no pod on the node.
abbrev pub accepts : Verdict → Bool
accepts v = elim (v.err) as (λ _. Bool) [ none ↦ v.fits | some _ ↦ false ]

abbrev pub Decides : Bool → Verdict → Type 0
Decides fits v = (v.fits ≡ fits) × (accepts v ≡ fits)

module _ {S : Type 0} (f : FrameworkImpl S) (generation : ℤ) (pod : Pod) where
  filter_once-Passes :
      (state : S) (info : NodeInfo)
      → Returns (Decides (all_pass state pod info f.filter_plugins)) (filter_once f pod state info)
  unfolding filter_once
  filter_once-Passes state info =
      Returns-bind (merge-run_filter_plugins state pod info f)
        λ status e. returns (ground arith, ground arith)

  -- Whether the pod must be able to live with `p`: another pod, with at least its priority.
  abbrev competes : Pod → Bool
  competes p =
      if p.uid === pod.uid then false else leb_ℤ (get_pod_priority pod) (get_pod_priority p)

  unfoldable pub competing : List Pod → List Pod
  competing [] = []
  competing (p ∷ ps) = if competes p then p ∷ competing ps else competing ps

  -- The competing pods that are nominated to a node; none where the node is nil.
  abbrev pub competitors : (String → List Pod) → NodeInfo → List Pod
  competitors nominated info = elim (info.node) as (λ _. List Pod) [
    | none ↦ []
    | some node ↦ competing (nominated node.name)
  ]

  -- All of these pods on the node, each made known to the plugins, of which the first error is a no.
  unfoldable pub with_pods : List Pod → S → NodeInfo → Result String (S × NodeInfo)
  with_pods [] state info = value (state, info)
  with_pods (p ∷ ps) state info =
      let info' = add_pod info p generation in
      let (status, state') = run_pre_filter_extension_add_pod f pod p info' state in
      let rest = with_pods ps state' info' in
      elim (as_error status) as (λ _. Result String (S × NodeInfo)) [
        | some e ↦ error e
        | none ↦ rest
      ]

  -- What the node must let through: all filters pass the pod with the competitors added and, where there are
  -- any, also without them.
  abbrev fits_of : Bool → S → NodeInfo → Result String (S × NodeInfo) → Bool
  fits_of alone state info (error e) = false
  fits_of alone state info (value (state', info')) =
      all_pass state' pod info' f.filter_plugins
      && (if alone then true else all_pass state pod info f.filter_plugins)

  abbrev pub fits_with : List Pod → S → NodeInfo → Bool
  fits_with ps state info = fits_of (is_empty ps) state info (with_pods ps state info)

  -- The result of addNominatedPods, with podsAdded.
  abbrev flagged : Bool → Result String (S × NodeInfo) → Result String (Bool × S × NodeInfo)
  flagged added (error e) = error e
  flagged added (value (state, info)) = value (added, state, info)

  yields_to-competes : (p : Pod) → yields_to pod p ≡ competes p
  yields_to-competes p = ground arith

  either_true : (b : Bool) → (if b then true else true) ≡ true
  either_true true = refl
  either_true false = refl

  add_nominated-flagged :
      (ps : List Pod) (added : Bool) (state : S) (info : NodeInfo)
      → add_nominated f generation pod ps added state info
        ≡ flagged
            (if is_empty (competing ps) then added else true)
            (with_pods (competing ps) state info)
  unfolding add_nominated competing with_pods
  add_nominated-flagged [] added state info = refl
  add_nominated-flagged (p ∷ ps) added state info =
      let info' = add_pod info p generation in
      let (status, state') = run_pre_filter_extension_add_pod f pod p info' state in
      let later = add_nominated-flagged ps true state' info' in
      elim (Bool-cases (competes p)) [
        | inl both ↦
            let yields = yields_to-competes p ∙ both in
            elim (Option-cases (as_error status)) [
              | inl fine ↦
                  rw (add_nominated, competing, yields, both, with_pods, fine)
                    (later
                      ∙ ap (λ b. flagged b (with_pods (competing ps) state' info'))
                          (either_true (is_empty (competing ps))))
              | inr (e, broken) ↦
                  rw (add_nominated, competing, yields, both, with_pods, broken) refl
            ]
        | inr alone ↦
            let stays = yields_to-competes p ∙ alone in
            rw (add_nominated, competing, stays, alone) (add_nominated-flagged ps added state info)
      ]

  on_node-flagged :
      (nominated : String → List Pod) (state : S) (info : NodeInfo) (node : Option Node)
      → (elim node as (λ _. Result String (Bool × S × NodeInfo)) [
        | none ↦ value (false, state, info)
        | some n ↦ add_nominated f generation pod (nominated n.name) false state info
      ])
        ≡ (let ps = elim node as (λ _. List Pod) [
          | none ↦ []
          | some n ↦ competing (nominated n.name)
        ] in
            flagged (if is_empty ps then false else true) (with_pods ps state info))
  unfolding with_pods
  on_node-flagged nominated state info none = refl
  on_node-flagged nominated state info (some n) =
      add_nominated-flagged (nominated n.name) false state info

  add_nominated_pods-flagged :
      (nominated : String → List Pod) (state : S) (info : NodeInfo)
      → add_nominated_pods f generation pod nominated state info
        ≡ flagged
            (if is_empty (competitors nominated info) then false else true)
            (with_pods (competitors nominated info) state info)
  unfolding add_nominated_pods
  add_nominated_pods-flagged nominated state info = on_node-flagged nominated state info info.node

  abbrev verdict_on : S → NodeInfo → Result String (Bool × S × NodeInfo) → Run Verdict
  verdict_on state info (error e) = ok (record { fits = false; status = none; err = some e })
  verdict_on state info (value (more, state', info')) = filter_once f pod state' info' >>= λ first.
      let second = filter_once f pod state info in if more && first.fits then second else ok first

  verdict_on-fits_of :
      (state : S) (info : NodeInfo) (alone : Bool) (added : Result String (S × NodeInfo))
      → Returns
          (Decides (fits_of alone state info added))
          (verdict_on state info (flagged (if alone then false else true) added))
  verdict_on-fits_of state info alone (error e) = returns (refl, refl)
  verdict_on-fits_of state info true (value (state', info')) =
      Returns-bind (filter_once-Passes state' info')
        λ first (e, a). returns (ground arith, ground arith)
  verdict_on-fits_of state info false (value (state', info')) =
      Returns-bind (filter_once-Passes state' info') λ first (e, a).
        Returns-if first.fits
          (λ again.
            Returns-map (filter_once-Passes state info)
              λ second (e', a'). (ground arith, ground arith))
          λ once. returns (ground arith, ground arith)

  -- PodPassesFiltersOnNode returns, and says that the pod fits exactly when all filters pass it on the node
  -- with the nominated pods of at least its priority added, other than the pod itself, and, where there are
  -- any, also without them. An error of a plugin that gets to know of the nominated pods is a no.
  pub pod_passes-Decides :
      (nominated : String → List Pod) (state : S) (info : NodeInfo)
      → Returns
          (Decides (fits_with (competitors nominated info) state info))
          (pod_passes_filters_on_node f generation pod nominated state info)
  unfolding pod_passes_filters_on_node
  pod_passes-Decides nominated state info =
      let ps = competitors nominated info in
      subst (λ added. Returns (Decides (fits_with ps state info)) (verdict_on state info added))
        (sym (add_nominated_pods-flagged nominated state info))
        (verdict_on-fits_of state info (is_empty ps) (with_pods ps state info))
