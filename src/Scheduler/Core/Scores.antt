-- ===== src/Scheduler/Core/Scores.antt =====
-- scheduler/core/generic_scheduler.go: the total score of a node, how many feasible nodes are enough, and
-- which node is taken.
use cloud_prophet.Prelude.{
  ℕ, suc, ◌+◌, String, Bool, true, false, ◌||◌, Option, none, some, List, [], ◌∷◌, get_elem?,
  if◌then◌else◌, string_eq, Run, ok, or_panic, ◌>>=◌,
}
use cloud_prophet.Prelude.Int.{ℤ, pos, wrap32, wrap64, quot, ltb_ℤ, leb_ℤ, eqb_ℤ, ◌+ℤ◌, ◌-ℤ◌, ◌*ℤ◌}
use cloud_prophet.Scheduler.Node.{Node}
use cloud_prophet.Scheduler.Framework.Plugins.{NodeScoreList}
use cloud_prophet.Scheduler.Framework.Scoring.{PluginToNodeScores}

-- The loop of prioritizeNodes over the plugins for the node at index `i`. An index out of range panics.
unfoldable pub add_scores : ℕ → PluginToNodeScores → ℤ → Run ℤ
add_scores i [] total = ok total
add_scores i ((_, scores) ∷ m) total =
    or_panic (get_elem? scores i) >>= λ s. add_scores i m (wrap64 (total +ℤ s.score))

-- The loop of prioritizeNodes over the nodes, from the index `i`.
unfoldable pub sum_scores : ℕ → List Node → PluginToNodeScores → Run NodeScoreList
unfolding add_scores
sum_scores i [] m = ok []
sum_scores i (node ∷ nodes) m = add_scores i m (pos 0) >>= λ total.
    sum_scores (suc i) nodes m >>= λ rest. ok (record { name = node.name; score = total } ∷ rest)

-- prioritizeNodes where there are no score plugins and no extenders.
unfoldable pub equal_scores : List Node → NodeScoreList
equal_scores [] = []
equal_scores (node ∷ nodes) = record { name = node.name; score = pos 1 } ∷ equal_scores nodes

-- The loop of selectHost. `draw i` answers rand.Intn(cntOfMaxScore) for the element at the index `i`:
-- whether it is 0.
unfoldable pub select_loop : (ℕ → Bool) → ℕ → NodeScoreList → ℤ → String → ℕ → String
select_loop draw i [] max_score selected count = selected
select_loop draw i (ns ∷ rest) max_score selected count =
    let above = ltb_ℤ max_score ns.score in
    let level = eqb_ℤ ns.score max_score in
    let max_score' = if above then ns.score else max_score in
    let count' = if above then 1 else if level then count + 1 else count in
    let taken = if above then true else if level then draw i else false in
    select_loop draw (suc i) rest max_score' (if taken then ns.name else selected) count'

-- `none` is the error for an empty list.
unfoldable pub select_host : (ℕ → Bool) → NodeScoreList → Option String
unfolding select_loop
select_host draw [] = none
select_host draw (first ∷ rest) = some (select_loop draw 1 rest first.score first.name 1)

abbrev pub min_feasible_nodes_to_find : ℤ
min_feasible_nodes_to_find = pos 100

abbrev pub min_feasible_nodes_percentage_to_find : ℤ
min_feasible_nodes_percentage_to_find = pos 5

-- The percentage that is used where none is configured.
unfoldable pub adaptive_percentage : ℤ → ℤ → ℤ
adaptive_percentage percentage num_all_nodes =
    let adaptive = wrap32 (pos 50 -ℤ quot num_all_nodes 125) in
    if leb_ℤ percentage (pos 0)
    then if ltb_ℤ adaptive min_feasible_nodes_percentage_to_find
      then min_feasible_nodes_percentage_to_find
      else adaptive
    else percentage

unfoldable pub num_feasible_nodes_to_find : ℤ → ℤ → ℤ
unfolding adaptive_percentage
num_feasible_nodes_to_find percentage num_all_nodes =
    let num_nodes =
      quot (wrap32 (num_all_nodes *ℤ adaptive_percentage percentage num_all_nodes)) 100 in
    if ltb_ℤ num_all_nodes min_feasible_nodes_to_find || leb_ℤ (pos 100) percentage
    then num_all_nodes
    else if ltb_ℤ num_nodes min_feasible_nodes_to_find
    then min_feasible_nodes_to_find
    else num_nodes
