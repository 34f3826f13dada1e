-- ===== src/Scheduler/Core/Schedule/Host.antt =====
-- The host that Schedule of scheduler/core/generic_scheduler.go suggests.
use cloud_prophet.Prelude.{
  ◌≡◌, refl, sym, ap, ◌∙◌, subst, ◌+◌, ◌^◌, ◌<◌, String, Bool, true, false, not, ◌&&◌, Option, none,
  some, List, [], ◌∷◌, map, take, is_empty, length, if◌then◌else◌, ◌⊎◌, inl, inr, Bool-cases,
  Result-cases, Run, ok, ◌>>=◌, Result, value, error, OnValue, no_value, has_value, Returns,
  returns, Returns-bind, Returns-inv, ◌-◌, arith,
}
use cloud_prophet.Prelude.Int.{ℤ, pos, pos_part}
use cloud_prophet.Scheduler.Pod.{Pod}
use cloud_prophet.Scheduler.Node.{Node}
use cloud_prophet.Scheduler.Framework.Status.{
  Status, NodeToStatusMap, is_success, is_unschedulable, message,
}
use cloud_prophet.Scheduler.Framework.Plugins.{NodeScoreList, FrameworkImpl}
use cloud_prophet.Scheduler.Framework.Runtime.{
  run_pre_filter_plugins, run_pre_score_plugins, has_filter_plugins, has_score_plugins,
}
use cloud_prophet.Scheduler.Framework.Scoring.Bounds.{
  AllWithin, within_nil, within_cons, AllWithin-weaken,
}
use cloud_prophet.Scheduler.Framework.Scoring.Weighted.{
  SoundWeights, IsWeighted, Sized, run_score_plugins-IsWeighted,
}
use cloud_prophet.Scheduler.Framework.Setup.Total.{worth}
use cloud_prophet.Scheduler.Core.Scores.{
  equal_scores, sum_scores, select_host, num_feasible_nodes_to_find,
}
use cloud_prophet.Scheduler.Core.Sums.{sum_scores-Total}
use cloud_prophet.Scheduler.Core.Selection.{
  Best, best_here, best_later, Chosen, chosen, select_host-Chosen,
}
use cloud_prophet.Scheduler.Core.Filtering.{SnapshotNode, Found}
use cloud_prophet.Scheduler.Core.Filtering.Checking.{kept, node_fits, find_nodes-First}
use cloud_prophet.Scheduler.Core.Schedule.{
  SchedulerEnv, ScheduleError, failed, ScheduleResult, with_extenders, prioritize_nodes,
  find_nodes_that_fit_pod, find_nodes_that_pass_extenders, pick_node, schedule,
}

abbrev score_names : NodeScoreList → List String
score_names = map λ s. s.name

abbrev node_names : List Node → List String
node_names = map λ n. n.name

pub data Among (name : String) : List String → Type 0 where
  among_here : {n : String} {rest : List String} → n ≡ name → Among name (n ∷ rest)
  among_later : {n : String} {rest : List String} → Among name rest → Among name (n ∷ rest)

Best-Among :
    {name : String} {high : ℤ} {list : NodeScoreList}
    → Best name high list
    → Among name (score_names list)
Best-Among (best_here e h) = among_here e
Best-Among (best_later best) = among_later (Best-Among best)

Chosen-Among :
    {name : String} {list : NodeScoreList} → Chosen list name → Among name (score_names list)
Chosen-Among (chosen high best all) = Best-Among best

equal_scores-names : (nodes : List Node) → score_names (equal_scores nodes) ≡ node_names nodes
unfolding equal_scores
equal_scores-names [] = refl
equal_scores-names (n ∷ nodes) = ap (λ l. n.name ∷ l) (equal_scores-names nodes)

equal_scores-AllWithin : (nodes : List Node) → AllWithin (2 ^ 63 - 1) (equal_scores nodes)
unfolding equal_scores
equal_scores-AllWithin [] = within_nil
equal_scores-AllWithin (n ∷ nodes) = within_cons 1 refl (omega arith) (equal_scores-AllWithin nodes)

abbrev found_value : List Node → Result String (List Node)
found_value = value

value_inj : {a b : List Node} → found_value a ≡ found_value b → a ≡ b
value_inj e = cc

no_found :
    (e : String) (nodes : List Node) (plain : Bool) (found : List Node)
    → (if plain then found_value [] else error e) ≡ found_value found
    → (found ≡ nodes) ⊎ (found ≡ [])
no_found e nodes true found h = inr (value_inj (sym h))
no_found e nodes false found h = absurd (cc)

pass_extenders-none :
    (pod : Pod) (nodes : List Node) (statuses : NodeToStatusMap)
    → find_nodes_that_pass_extenders pod [] nodes statuses ≡ ok (value nodes, statuses)
unfolding find_nodes_that_pass_extenders
pass_extenders-none pod nodes statuses = refl

some_length : (nodes : List SnapshotNode) → is_empty nodes ≡ false → 0 < length nodes
some_length [] e = absurd (cc)
some_length (n ∷ nodes) e = omega arith

module _ {S : Type 0} (env : SchedulerEnv) (f : FrameworkImpl S) (pod : Pod) where
  -- The nodes that the search finds, on the state that the PreFilter plugins leave.
  abbrev pub candidates : S → List Node
  candidates state =
      take
        (pos_part (
          num_feasible_nodes_to_find env.percentage_of_nodes_to_score (pos (length env.all_nodes))))
        (kept
          (node_fits f env.clone_generation pod (run_pre_filter_plugins f pod state).1
            env.nominated_pods_for_node)
          env.all_nodes env.next_start_node_index env.order)

  -- The host has the greatest of the totals that prioritizeNodes gives to the nodes; the totals are int64
  -- numbers that are not negative.
  pub record HasBest (nodes : List Node) (state : S) (host : String) : Type 0 where
    pub totals : NodeScoreList
    pub prioritized : prioritize_nodes env f pod nodes state ≡ ok (value totals)
    pub totals_within : AllWithin (2 ^ 63 - 1) totals
    pub best : Chosen totals host

  -- What is claimed of a result: the host is one of the nodes, the best one if there are several, and their
  -- number is right.
  pub record IsHostOf (nodes : List Node) (state : S) (r : ScheduleResult) : Type 0 where
    pub host_among : Among r.suggested_host (node_names nodes)
    pub feasible_count : r.feasible_nodes ≡ length nodes
    pub host_best : (length nodes ≡ 1) ⊎ HasBest nodes state r.suggested_host

module _ {S : Type 0} (env : SchedulerEnv) (f : FrameworkImpl S) (pod : Pod)
    (sound : SoundWeights f.plugin_name_to_weight_map)
    (small : worth f.plugin_name_to_weight_map < 2 ^ 63) (alone : env.extenders ≡ []) where
  -- A total for each node.
  abbrev Totals : List Node → NodeScoreList → Type 0
  Totals nodes list = (score_names list ≡ node_names nodes) × AllWithin (2 ^ 63 - 1) list

  with_extenders-none :
      (nodes : List Node) (list : NodeScoreList)
      → with_extenders env.max_extender_priority pod nodes env.extenders list ≡ list
  unfolding with_extenders
  with_extenders-none nodes list = rw (alone, with_extenders) refl

  prioritize_nodes-Totals :
      (nodes : List Node) (state : S)
      → Returns (OnValue (Totals nodes)) (prioritize_nodes env f pod nodes state)
  unfolding prioritize_nodes
  prioritize_nodes-Totals nodes state =
      let (pre_score, state') = run_pre_score_plugins f pod nodes state in
      let plain = is_empty env.extenders && not (has_score_plugins f) in
      elim (Bool-cases plain) [
        | inl none_set ↦
            rw (none_set, prioritize_nodes)
              (returns (has_value (equal_scores-names nodes, equal_scores-AllWithin nodes)))
        | inr some_set ↦ elim (Bool-cases (is_success pre_score)) [
          | inl good ↦
              rw (some_set, good, prioritize_nodes)
                (scored _ (run_score_plugins-IsWeighted env.show_int f state' pod nodes sound))
          | inr bad ↦ rw (some_set, bad, prioritize_nodes) (returns no_value)
        ]
      ]
    where
      scored :
          (scores : Result (Option Status) _)
          → OnValue
              (λ m.
                IsWeighted f.plugin_name_to_weight_map (length nodes) m
                × Sized f.score_plugins (length nodes) m)
              scores
          → Returns
              (OnValue (Totals nodes))
              (elim scores as (λ _. Run (Result String NodeScoreList)) [
                | error status ↦ ok (error (message status))
                | value m ↦ sum_scores 0 nodes m >>= λ totals. ok (
                    value (with_extenders env.max_extender_priority pod nodes env.extenders totals))
              ])
      scored (error status) no_value = returns no_value
      scored (value m) (has_value (weighted, sized)) =
          Returns-bind (sum_scores-Total f.plugin_name_to_weight_map nodes m weighted small)
            λ totals (within, names). returns (
              has_value (
                rw (with_extenders-none nodes totals) (
                  names,
                  AllWithin-weaken (worth f.plugin_name_to_weight_map) (2 ^ 63 - 1) (omega arith)
                      within,
                )))

  pick_node-IsHostOf :
      (nodes : List Node) (statuses : NodeToStatusMap) (state : S)
      → Returns
          (OnValue (IsHostOf env f pod nodes state))
          (pick_node env f pod nodes statuses state)
  unfolding pick_node
  pick_node-IsHostOf [] statuses state = returns no_value
  pick_node-IsHostOf (only ∷ []) statuses state = returns (
      has_value
        (record { host_among = among_here refl; feasible_count = refl; host_best = inl refl }))
  pick_node-IsHostOf (one ∷ two ∷ nodes) statuses state =
      let feasible = one ∷ two ∷ nodes in
      let (priorities, e, totals) = Returns-inv (prioritize_nodes-Totals feasible state) in
      rw (pick_node, e) (picked priorities e totals)
    where
      picked :
          (priorities : Result String NodeScoreList)
          → prioritize_nodes env f pod (one ∷ two ∷ nodes) state ≡ ok priorities
          → OnValue (Totals (one ∷ two ∷ nodes)) priorities
          → Returns
              (OnValue (IsHostOf env f pod (one ∷ two ∷ nodes) state))
              (elim priorities as (λ _. Run (Result ScheduleError ScheduleResult)) [
                | error e ↦ ok (error (failed e))
                | value list ↦
                    elim (select_host env.draw list)
                      as (λ _. Run (Result ScheduleError ScheduleResult)) [
                        | none ↦ ok (error (failed "empty priorityList"))
                        | some host ↦ ok (
                            value (record {
                              suggested_host = host;
                              evaluated_nodes = length (one ∷ two ∷ nodes) + length statuses;
                              feasible_nodes = length (one ∷ two ∷ nodes);
                            }))
                      ]
              ])
      picked (error e) is no_value = returns no_value
      picked (value []) is (has_value (names, within)) = absurd (cc)
      picked (value (first ∷ rest)) is (has_value (names, within)) =
          let (name, e, best) = select_host-Chosen env.draw first rest in
          rw e (
            returns (
              has_value (record {
                host_among = subst (Among name) names (Chosen-Among best);
                feasible_count = refl;
                host_best = inr (record {
                  totals = first ∷ rest;
                  prioritized = is;
                  totals_within = within;
                  best = best;
                });
              })))

  -- The state that the PreFilter plugins leave.
  abbrev filtered : S → S
  filtered state = (run_pre_filter_plugins f pod state).1

  abbrev FoundIn : List Node → S → Found × S → Type 0
  FoundIn nodes state r =
      (r.1 ≡ filtered state)
      × ((found : List Node) → r.0.nodes ≡ value found → (found ≡ nodes) ⊎ (found ≡ []))

  find_nodes-FoundIn :
      (state : S)
      → has_filter_plugins f ≡ true
      → is_empty env.all_nodes ≡ false
      → Returns
          (FoundIn (candidates env f pod state) state)
          (find_nodes_that_fit_pod env f pod state)
  unfolding find_nodes_that_fit_pod
  find_nodes-FoundIn state filters some_node =
      let (s, state') = run_pre_filter_plugins f pod state in
      elim (Bool-cases (is_success s)) [
        | inl good ↦
            rw (good, filters, find_nodes_that_fit_pod)
              (Returns-bind
                (find_nodes-First f env.clone_generation pod state' env.nominated_pods_for_node
                  env.all_nodes env.next_start_node_index _ env.order []
                  (some_length env.all_nodes some_node))
                λ found (start, first). elim (Result-cases found.nodes) [
                  | inl (e, is) ↦ rw is (returns (refl, λ other h. absurd (cc)))
                  | inr (nodes, is) ↦
                      rw (is, alone, pass_extenders-none)
                        (returns (refl, λ other h. inl (value_inj (sym h) ∙ first nodes is)))
                ])
        | inr bad ↦
            rw (bad, find_nodes_that_fit_pod)
              (returns (
                refl,
                λ found h. no_found _ (candidates env f pod state) (is_unschedulable s) found h,
              ))
      ]

  FoundIn-IsHostOf :
      (nodes found : List Node) (statuses : NodeToStatusMap) (state : S)
      → (found ≡ nodes) ⊎ (found ≡ [])
      → Returns
          (OnValue (IsHostOf env f pod nodes state))
          (pick_node env f pod found statuses state)
  unfolding pick_node
  FoundIn-IsHostOf nodes found statuses state (inl e) =
      rw (sym e) (pick_node-IsHostOf found statuses state)
  FoundIn-IsHostOf nodes found statuses state (inr e) = rw (e, pick_node) (returns no_value)

  -- With filter plugins, with no extenders, and with weights that NewFramework lets pass, Schedule always
  -- returns, without a panic. If it suggests a host, this is the name of one of the nodes that fit the pod:
  -- of the first ones in the order in which the workers finished, as many as numFeasibleNodesToFind says.
  -- The result counts these nodes. If there are several, the host has the greatest of the totals that
  -- prioritizeNodes gives to them, none of which is negative.
  pub schedule-IsHostOf :
      (state : S)
      → has_filter_plugins f ≡ true
      → Returns
          (OnValue (
            IsHostOf env f pod (candidates env f pod state) (run_pre_filter_plugins f pod state).1))
          (schedule env f pod none state)
  unfolding schedule
  schedule-IsHostOf state filters = elim (Bool-cases (is_empty env.all_nodes)) [
    | inl empty ↦ rw (empty, schedule) (returns no_value)
    | inr some_node ↦
        rw (some_node, schedule)
          (Returns-bind (find_nodes-FoundIn state filters some_node)
            λ (found, state') (same, found_in). elim (Result-cases found.nodes) [
              | inl (e, is) ↦ rw is (returns no_value)
              | inr (nodes, is) ↦
                  rw (is, same)
                    (FoundIn-IsHostOf (candidates env f pod state) nodes found.statuses _
                      (found_in nodes is))
            ])
  ]
