-- ===== src/Scheduler/Plugins/Scores.antt =====
-- DefaultNormalizeScore of scheduler/framework/plugins/helper/normalize_score.go.
pub mod Normalized
use cloud_prophet.Prelude.{ℕ, Bool, true, false, List, [], ◌∷◌, if◌then◌else◌}
use cloud_prophet.Prelude.Int.{ℤ, pos, negsuc, wrap64, quot, ltb_ℤ, eqb_ℤ, ◌-ℤ◌, ◌*ℤ◌}
use cloud_prophet.Scheduler.Framework.Plugins.{NodeScore, NodeScoreList}

unfoldable pub max_count : NodeScoreList → ℤ → ℤ
max_count [] m = m
max_count (s ∷ ss) m = max_count ss (if ltb_ℤ m s.score then s.score else m)

-- Each score through a function.
unfoldable pub map_scores : (ℤ → ℤ) → NodeScoreList → NodeScoreList
map_scores f [] = []
map_scores f (s ∷ ss) = record s { score = f s.score } ∷ map_scores f ss

-- The division by the greatest score, which is positive.
unfoldable pub normalized : ℤ → Bool → ℕ → ℤ → ℤ
normalized max_priority reverse m score =
    let scaled = quot (wrap64 (max_priority *ℤ score)) m in
    if reverse then wrap64 (max_priority -ℤ scaled) else scaled

-- The greatest score is never negative, since the loop starts from 0.
unfoldable pub default_normalize_score : ℤ → Bool → NodeScoreList → NodeScoreList
unfolding max_count map_scores normalized
default_normalize_score max_priority reverse scores =
    elim (max_count scores (pos 0)) as (λ _. NodeScoreList) [
      | pos m ↦
          if eqb_ℤ (pos m) (pos 0)
          then if reverse then map_scores (λ _. max_priority) scores else scores
          else map_scores (normalized max_priority reverse m) scores
      | negsuc m ↦ scores
    ]
