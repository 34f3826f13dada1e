-- ===== src/Scheduler/Core/Sums.antt =====
-- The totals of scheduler/core/generic_scheduler.go do not overflow.
use cloud_prophet.Prelude.{
  ◌≡◌, refl, ap, ◌∙◌, ℕ, zero, suc, ◌+◌, ◌^◌, ◌≤◌, ◌<◌, String, false, none, some, List, [], ◌∷◌,
  get_elem?, get_elem?-some, length, inl, inr, Bool-cases, string_eq, ◌===◌, beq_refl, Returns,
  returns, Returns-bind, Returns-map, map, arith,
}
use cloud_prophet.Prelude.Int.{ℤ, pos, wrap64, wrap64-pos, +ℤ-pos, ◌+ℤ◌}
use cloud_prophet.Prelude.Map.{Map, lookup, delete, lookup-delete, IsUnique, unique_cons}
use cloud_prophet.Scheduler.Node.{Node}
use cloud_prophet.Scheduler.Framework.Plugins.{NodeScore, NodeScoreList}
use cloud_prophet.Scheduler.Framework.Scoring.{PluginToNodeScores, weight_of}
use cloud_prophet.Scheduler.Framework.Scoring.Bounds.{AllWithin, within_nil, within_cons}
use cloud_prophet.Scheduler.Framework.Scoring.Weighted.{IsWeighted, cap}
use cloud_prophet.Scheduler.Framework.Setup.Total.{worth}
use cloud_prophet.Scheduler.Core.Scores.{add_scores, sum_scores}

get_elem?-AllWithin :
    (b : ℕ) {l : NodeScoreList} (i : ℕ) (s : NodeScore)
    → AllWithin b l
    → get_elem? l i ≡ some s
    → (a : ℕ) × (s.score ≡ pos a) × (a ≤ b)
get_elem?-AllWithin b i s within_nil e = absurd (cc)
get_elem?-AllWithin b zero s (within_cons a h le rest) e = (a, ground arith, le)
get_elem?-AllWithin b (suc i) s (within_cons a h le rest) e = get_elem?-AllWithin b i s rest e

worth-delete : (k : String) (w : Map String ℤ) → worth (delete k w) + cap w k ≤ worth w
unfolding delete lookup
worth-delete k [] = omega arith
worth-delete k ((j, v) ∷ w) = ground (arith, worth-delete k w)

-- Every entry of the map has a score for the index, within the cap of its key.
abbrev Scored : Map String ℤ → ℕ → PluginToNodeScores → Type 0
Scored w i m =
    (k : String) (l : NodeScoreList)
    → lookup k m ≡ some l
    → (s : NodeScore) × (get_elem? l i ≡ some s) × ((a : ℕ) × (s.score ≡ pos a) × (a ≤ cap w k))

cap-delete : (k j : String) (w : Map String ℤ) → (k === j) ≡ false → cap (delete k w) j ≡ cap w j
cap-delete k j w other = rw (cap, weight_of, lookup-delete k j w, other) refl

abbrev Total : ℕ → ℕ → ℤ → Type 0
Total low high total = (a : ℕ) × (total ≡ pos a) × (low ≤ a) × (a ≤ low + high)

delete-Scored :
    (k : String) (l : NodeScoreList) (m : PluginToNodeScores) (w : Map String ℤ) (i : ℕ)
    → lookup k m ≡ none
    → Scored w i ((k, l) ∷ m)
    → Scored (delete k w) i m
unfolding lookup
delete-Scored k l m w i absent scored j r h = elim (Bool-cases (k === j)) [
  | inl same ↦
      let gone : lookup j m ≡ none = rw ((string_eq.beq_iff k j).0 same) at absent in absurd (cc)
  | inr other ↦
      let (s, at, (a, e, le)) = scored j r (rw other h) in
      (s, at, (a, e, rw (cap-delete k j w other) le))
]

add_scores-Total :
    (w : Map String ℤ) (i : ℕ) (m : PluginToNodeScores) (total : ℕ)
    → IsUnique m
    → Scored w i m
    → total + worth w < 2 ^ 63
    → Returns (Total total (worth w)) (add_scores i m (pos total))
unfolding add_scores lookup
add_scores-Total w i [] total unique scored small = returns (total, refl, omega arith, omega arith)
add_scores-Total w i ((k, l) ∷ m) total (unique_cons absent unique) scored small =
    let (s, at, (a, e, le)) = scored k l (rw (beq_refl k) refl) in
    let later : Scored (delete k w) i m = delete-Scored k l m w i absent scored in
    let part = worth-delete k w in
    let sum : wrap64 (pos total +ℤ s.score) ≡ pos (total + a) =
      ap (λ x. wrap64 (pos total +ℤ x)) e
      ∙ ap wrap64 (+ℤ-pos total a)
      ∙ wrap64-pos (total + a) (omega arith) in
    rw (at, add_scores, sum)
      (Returns-map (add_scores-Total (delete k w) i m (total + a) unique later (omega arith))
        λ r (b, e', low, high). (b, e', omega arith, omega arith))

IsWeighted-Scored :
    (w : Map String ℤ) (n i : ℕ) (m : PluginToNodeScores) → IsWeighted w n m → i < n → Scored w i m
IsWeighted-Scored w n i m weighted lt k l h =
    let within = weighted.scores_within k l h in
    let size = weighted.scores_length k l h in
    let (s, at) = get_elem?-some l i (omega arith) in
    (s, at, get_elem?-AllWithin (cap w k) i s within at)

sum_scores-rest :
    (w : Map String ℤ) (n i : ℕ) (nodes : List Node) (m : PluginToNodeScores)
    → IsWeighted w n m
    → worth w < 2 ^ 63
    → i + length nodes ≤ n
    → Returns
        (λ totals.
          AllWithin (worth w) totals × (map (λ s. s.name) totals ≡ map (λ v. v.name) nodes))
        (sum_scores i nodes m)
unfolding sum_scores
sum_scores-rest w n i [] m weighted small le = returns (within_nil, refl)
sum_scores-rest w n i (node ∷ nodes) m weighted small le =
    Returns-bind
      (add_scores-Total w i m 0 weighted.keys_unique
        (IsWeighted-Scored w n i m weighted (omega arith)) (omega arith))
      λ total (a, e, low, high).
        Returns-bind (sum_scores-rest w n (suc i) nodes m weighted small (omega arith))
          λ totals (within, names).
            returns (within_cons a e (omega arith) within, ap (λ l. node.name ∷ l) names)

-- Summing up the scores that RunScorePlugins returns neither panics nor overflows: every node keeps its
-- place in the list and gets a total between 0 and the worth of the weights, which NewFramework keeps
-- below 2^63.
pub sum_scores-Total :
    (w : Map String ℤ) (nodes : List Node) (m : PluginToNodeScores)
    → IsWeighted w (length nodes) m
    → worth w < 2 ^ 63
    → Returns
        (λ totals.
          AllWithin (worth w) totals × (map (λ s. s.name) totals ≡ map (λ v. v.name) nodes))
        (sum_scores 0 nodes m)
sum_scores-Total w nodes m weighted small =
    sum_scores-rest w (length nodes) 0 nodes m weighted small (omega arith)
