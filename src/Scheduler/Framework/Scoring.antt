-- ===== src/Scheduler/Framework/Scoring.antt =====
-- RunScorePlugins of scheduler/framework/runtime/framework.go, with the nodes and the plugins in their
-- order: the Go code runs them in parallel, each writing an element of its own, and the order shows only
-- in which of several errors is reported. `show_int` prints an int64.
pub mod Bounds
pub mod Weighted
use cloud_prophet.Prelude.{
  ℕ, zero, suc, ◌+◌, ◌^◌, ◌-◌, String, Bool, true, false, ◌||◌, Option, none, some, List, [], ◌∷◌,
  set, length, if◌then◌else◌, string_eq, Result, value, error, and_then,
}
use Prim.Native.String.{◌++◌ as ◌++s◌}
use cloud_prophet.Prelude.Int.{ℤ, pos, wrap64, ltb_ℤ, ◌*ℤ◌}
use cloud_prophet.Prelude.Map.{Map, lookup, insert}
use cloud_prophet.Scheduler.Pod.{Pod}
use cloud_prophet.Scheduler.Node.{Node}
use cloud_prophet.Scheduler.Framework.Status.{Status, message, is_success}
use cloud_prophet.Scheduler.Framework.Plugins.{NodeScore, NodeScoreList, ScorePlugin, FrameworkImpl}
use cloud_prophet.Scheduler.Framework.Runtime.{quote, error_status}

abbrev pub max_node_score : ℤ
max_node_score = pos 100

abbrev pub min_node_score : ℤ
min_node_score = pos 0

-- math.MaxInt64.
abbrev pub max_total_score : ℤ
max_total_score = pos (2 ^ 63 - 1)

abbrev pub PluginToNodeScores : Type 0
PluginToNodeScores = Map String NodeScoreList

-- make(NodeScoreList, n).
unfoldable pub zero_scores : ℕ → NodeScoreList
zero_scores zero = []
zero_scores (suc n) = record { name = ""; score = pos 0 } ∷ zero_scores n

-- A plugin that is missing from the map has the nil list.
abbrev pub scores_of : String → PluginToNodeScores → NodeScoreList
scores_of name m = elim (lookup name m) as (λ _. NodeScoreList) [ none ↦ [] | some l ↦ l ]

-- NormalizeScore writes to the elements of the slice that it gets, and cannot change its length.
unfoldable pub overwrite : NodeScoreList → NodeScoreList → NodeScoreList
overwrite [] new = []
overwrite (s ∷ ss) [] = s ∷ ss
overwrite (s ∷ ss) (t ∷ ts) = t ∷ overwrite ss ts

module _ {S : Type 0} where
  unfoldable pub start_scores : List (ScorePlugin S) → ℕ → PluginToNodeScores
  unfolding zero_scores
  start_scores [] n = []
  start_scores (pl ∷ pls) n = insert pl.name (zero_scores n) (start_scores pls n)

  -- The Score calls for the node at an index.
  unfoldable pub score_node :
      S
      → Pod
      → String
      → ℕ
      → List (ScorePlugin S)
      → PluginToNodeScores
      → Result String PluginToNodeScores
  score_node state pod node_name index [] m = value m
  score_node state pod node_name index (pl ∷ pls) m =
      let (s, status) = pl.score state pod node_name in
      let scores = set (scores_of pl.name m) index (record { name = node_name; score = s }) in
      let rest = score_node state pod node_name index pls (insert pl.name scores m) in
      if is_success status then rest else error (message status)

  unfoldable pub score_nodes :
      S
      → Pod
      → List (ScorePlugin S)
      → ℕ
      → List Node
      → PluginToNodeScores
      → Result String PluginToNodeScores
  unfolding score_node
  score_nodes state pod pls index [] m = value m
  score_nodes state pod pls index (node ∷ nodes) m =
      and_then (score_node state pod node.name index pls m)
        (score_nodes state pod pls (suc index) nodes)

  -- The NormalizeScore calls.
  unfoldable pub normalize_all :
      S → Pod → List (ScorePlugin S) → PluginToNodeScores → Result String PluginToNodeScores
  unfolding overwrite
  normalize_all state pod [] m = value m
  normalize_all state pod (pl ∷ pls) m =
      elim (pl.normalize_score) as (λ _. Result String PluginToNodeScores) [
        | none ↦ normalize_all state pod pls m
        | some normalize ↦
            let scores = scores_of pl.name m in
            let (status, new) = normalize state pod scores in
            let rest = normalize_all state pod pls (insert pl.name (overwrite scores new) m) in
            if is_success status
            then rest
            else error (
                "normalize score plugin "
                ++s quote pl.name
                ++s " failed with error "
                ++s message status)
      ]

-- The scores of one plugin, times its weight.
unfoldable pub weigh : (ℤ → String) → String → ℤ → NodeScoreList → Result String NodeScoreList
weigh show_int plugin weight [] = value []
weigh show_int plugin weight (s ∷ ss) =
    let invalid = ltb_ℤ max_node_score s.score || ltb_ℤ s.score min_node_score in
    let rest = weigh show_int plugin weight ss in
    if invalid
    then error (
        "score plugin "
        ++s quote plugin
        ++s " returns an invalid score "
        ++s show_int s.score
        ++s ", it should in the range of ["
        ++s show_int min_node_score
        ++s ", "
        ++s show_int max_node_score
        ++s "] after normalizing")
    else and_then rest λ ws. value (record s { score = wrap64 (s.score *ℤ weight) } ∷ ws)

-- A name with no weight has the weight 0.
abbrev pub weight_of : String → Map String ℤ → ℤ
weight_of name weights = elim (lookup name weights) as (λ _. ℤ) [ none ↦ pos 0 | some w ↦ w ]

abbrev pub then_scores :
    String
    → Pod
    → Result String PluginToNodeScores
    → (PluginToNodeScores → Result (Option Status) PluginToNodeScores)
    → Result (Option Status) PluginToNodeScores
then_scores what pod (error e) next =
    error (error_status ("error while " ++s what ++s " for pod " ++s quote pod.name ++s ": " ++s e))
then_scores what pod (value m) next = next m

module _ {S : Type 0} (show_int : ℤ → String) where
  unfoldable pub apply_weights :
      Map String ℤ → List (ScorePlugin S) → PluginToNodeScores → Result String PluginToNodeScores
  unfolding weigh
  apply_weights weights [] m = value m
  apply_weights weights (pl ∷ pls) m =
      and_then (weigh show_int pl.name (weight_of pl.name weights) (scores_of pl.name m))
        λ scores. apply_weights weights pls (insert pl.name scores m)

  -- The scores, or the status with the code Error.
  unfoldable pub run_score_plugins :
      FrameworkImpl S → S → Pod → List Node → Result (Option Status) PluginToNodeScores
  unfolding start_scores score_nodes normalize_all apply_weights
  run_score_plugins f state pod nodes =
      let pls = f.score_plugins in
      then_scores "running score plugin" pod
        (score_nodes state pod pls 0 nodes (start_scores pls (length nodes)))
        λ scored.
          then_scores "running normalize score plugin" pod (normalize_all state pod pls scored)
            λ normalized.
              then_scores "applying score defaultWeights" pod
                (apply_weights f.plugin_name_to_weight_map pls normalized)
                λ weighted. value weighted
