-- ===== src/Scheduler/Core/Filtering/Checking.antt =====
-- The parallel search of scheduler/core/generic_scheduler.go, for every order in which the workers finish.
use cloud_prophet.Prelude.{
  ◌≡◌, sym, ap, ◌∙◌, ℕ, ◌+◌, ◌%◌, ◌<◌, String, Bool, true, Option, none, some, List, [], ◌∷◌, ◌++◌,
  get_elem?, get_elem?-some, take, take-nil, take-append, length-take_min, append_assoc, append-nil,
  length, if◌then◌else◌, Run, value, Returns, returns, Returns-bind, Returns-map, arith,
}
use native.Mathlib.Nat.{mod-lt}
use cloud_prophet.Prelude.Int.{ℤ}
use cloud_prophet.Scheduler.Pod.{Pod}
use cloud_prophet.Scheduler.Node.{Node}
use cloud_prophet.Scheduler.NodeInfo.{NodeInfo}
use cloud_prophet.Scheduler.Framework.Status.{NodeToStatusMap}
use cloud_prophet.Scheduler.Framework.Plugins.{FrameworkImpl}
use cloud_prophet.Scheduler.Core.Filtering.{
  SnapshotNode, Verdict, Checks, note_verdict, check_node, check_nodes, no_checks,
  find_nodes_that_pass_filters, found_or_error, pod_passes_filters_on_node,
}
use cloud_prophet.Scheduler.Core.Filtering.Nominated.{
  accepts, Decides, competitors, fits_with, pod_passes-Decides,
}

-- The nodes at the indices of the list, from the start index on, that fit, in the order of the list.
unfoldable pub kept : (NodeInfo → Bool) → List SnapshotNode → ℕ → List ℕ → List Node
kept fits all_nodes start [] = []
kept fits all_nodes start (i ∷ order) =
    let rest = kept fits all_nodes start order in
    elim (get_elem? all_nodes ((start + i) % length all_nodes)) as (λ _. List Node) [
      | none ↦ rest
      | some n ↦ if fits n.info then n.node ∷ rest else rest
    ]

note_verdict-take :
    (num : ℕ) (node : Node) (v : Verdict) (c : Checks) (seen : List Node)
    → c.feasible ≡ take num seen
    → (note_verdict num node v c).feasible
      ≡ take num (seen ++ (if accepts v then node ∷ [] else []))
unfolding note_verdict
note_verdict-take num node v c seen e =
    let size = length-take_min num seen in
    let next = take-append num seen node in ground (arith, append-nil seen)

nodes_value :
    (e : Option String) (nodes found : List Node)
    → found_or_error e nodes ≡ value found
    → found ≡ nodes
nodes_value none nodes found h = cc
nodes_value (some e) nodes found h = absurd (cc)

module _ (check : NodeInfo → Run Verdict) (fits : NodeInfo → Bool)
    (decides : (info : NodeInfo) → Returns (Decides (fits info)) (check info))
    (all_nodes : List SnapshotNode) (some_node : 0 < length all_nodes) (start num : ℕ) where
  check_node-take :
      (i : ℕ) (c : Checks) (seen : List Node)
      → c.feasible ≡ take num seen
      → Returns
          (λ c'. c'.feasible ≡ take num (seen ++ kept fits all_nodes start (i ∷ [])))
          (check_node check all_nodes start num i c)
  unfolding check_node kept
  check_node-take i c seen e =
      let place = (start + i) % length all_nodes in
      let (n, at) = get_elem?-some all_nodes place (mod-lt (start + i) some_node) in
      rw (at, check_node, kept)
        (Returns-bind (decides n.info) λ v (fit, accepted).
          returns (rw (sym accepted) (note_verdict-take num n.node v c seen e)))

  kept-cons :
      (i : ℕ) (order : List ℕ)
      → kept fits all_nodes start (i ∷ order)
        ≡ kept fits all_nodes start (i ∷ []) ++ kept fits all_nodes start order
  unfolding kept
  kept-cons i order = ground arith

  check_nodes-take :
      (order : List ℕ) (c : Checks) (seen : List Node)
      → c.feasible ≡ take num seen
      → Returns
          (λ c'. c'.feasible ≡ take num (seen ++ kept fits all_nodes start order))
          (check_nodes check all_nodes start num order c)
  unfolding check_nodes kept
  check_nodes-take [] c seen e = returns (rw (append-nil seen) e)
  check_nodes-take (i ∷ order) c seen e = Returns-bind (check_node-take i c seen e) λ c' e'.
      Returns-map (check_nodes-take order c' (seen ++ kept fits all_nodes start (i ∷ [])) e')
        λ c'' e''.
          e''
          ∙ ap (take num) (
              append_assoc seen (kept fits all_nodes start (i ∷ []))
                (kept fits all_nodes start order)
              ∙ ap (λ l. seen ++ l) (sym (kept-cons i order)))

module _ {S : Type 0} (f : FrameworkImpl S) (generation : ℤ) (pod : Pod) (state : S)
    (nominated : String → List Pod) where
  -- The pod fits on the node, with and without the pods nominated to it.
  abbrev pub node_fits : NodeInfo → Bool
  node_fits info =
      fits_with f generation pod (competitors f generation pod nominated info) state info

  -- Whatever the order in which the workers finish with the nodes, findNodesThatPassFilters returns, and if
  -- it returns nodes, they are the first ones in that order that fit, as many as it looks for and no
  -- more. The search of the next pod starts at the index of a node.
  pub find_nodes-First :
      (all_nodes : List SnapshotNode) (start num : ℕ) (order : List ℕ) (statuses : NodeToStatusMap)
      → 0 < length all_nodes
      → Returns
          (λ r.
            (r.next_start < length all_nodes)
            × ((nodes : List Node)
                → r.nodes ≡ value nodes
                → nodes ≡ take num (kept node_fits all_nodes start order)))
          (find_nodes_that_pass_filters true
            (pod_passes_filters_on_node f generation pod nominated state)
            all_nodes
            start
            num
            order
            statuses)
  unfolding find_nodes_that_pass_filters
  find_nodes-First all_nodes start num order statuses some_node =
      Returns-bind
        (check_nodes-take (pod_passes_filters_on_node f generation pod nominated state) node_fits
          (pod_passes-Decides f generation pod nominated state) all_nodes some_node start num order
          (no_checks statuses) [] (sym (take-nil num)))
        λ c e.
          returns (mod-lt _ some_node, λ nodes h. nodes_value c.first_error c.feasible nodes h ∙ e)
