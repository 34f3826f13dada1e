-- ===== src/Scheduler/Plugins/Scores/Normalized.antt =====
-- The range of the scores that scheduler/framework/plugins/helper/normalize_score.go gives.
use cloud_prophet.Prelude.{
  ◌≡◌, refl, ap, ◌∙◌, ℕ, ◌-◌, ◌*◌, ◌/◌, ◌^◌, ◌≤◌, ◌<◌, Bool, ltb, if◌then◌else◌, inl, inr,
  Bool-cases, arith,
}
use native.Mathlib.Nat.{div-le_of_le-mul}
use cloud_prophet.Prelude.Int.{ℤ, pos, wrap64, wrap64-pos, quot, eqb_ℤ, ◌-ℤ◌, -ℤ-pos, ◌*ℤ◌, *ℤ-pos}
use cloud_prophet.Scheduler.Framework.Plugins.{NodeScoreList}
use cloud_prophet.Scheduler.Framework.Scoring.Bounds.{
  AllWithin, within_nil, within_cons, AllWithin-weaken,
}
use cloud_prophet.Scheduler.Plugins.Scores.{
  max_count, map_scores, normalized, default_normalize_score,
}

-- The greatest score bounds all of them.
max_count-AllWithin :
    {b : ℕ} {scores : NodeScoreList} (m : ℕ)
    → AllWithin b scores
    → m ≤ b
    → (top : ℕ) × (max_count scores (pos m) ≡ pos top)
      × (m ≤ top)
      × (top ≤ b)
      × AllWithin top scores
unfolding max_count
max_count-AllWithin m within_nil le = (m, refl, omega arith, le, within_nil)
max_count-AllWithin {b} m (within_cons {s = s} {ss = ss} a e small rest) le =
    let next = if ltb m a then a else m in
    let (top, h, low, high, within) = max_count-AllWithin next rest (ground arith) in
    (
      top,
      ap (max_count ss) (rw e (ground arith)) ∙ h,
      ground arith,
      high,
      within_cons a e (ground arith) within,
    )

scaled : (top a : ℕ) → a ≤ top → 100 * a / top ≤ 100
scaled top a le = div-le_of_le-mul top (omega arith)

normalized-pos :
    (reverse : Bool) (top a : ℕ)
    → a ≤ top
    → 100 * top < 2 ^ 63
    → (r : ℕ) × (normalized (pos 100) reverse top (pos a) ≡ pos r) × (r ≤ 100)
unfolding normalized quot
normalized-pos reverse top a le small =
    let product : wrap64 (pos 100 *ℤ pos a) ≡ pos (100 * a) =
      ap wrap64 (*ℤ-pos 100 a) ∙ wrap64-pos (100 * a) (omega arith) in
    let share = scaled top a le in
    let rest : wrap64 (pos 100 -ℤ pos (100 * a / top)) ≡ pos (100 - 100 * a / top) =
      ap wrap64 (-ℤ-pos 100 (100 * a / top) share)
      ∙ wrap64-pos (100 - 100 * a / top) (omega arith) in
    (
      if reverse then 100 - 100 * a / top else 100 * a / top,
      rw (product, rest) (ground arith),
      ground arith,
    )

map_scores-AllWithin :
    (f : ℤ → ℤ) (b : ℕ) {scores : NodeScoreList}
    → ((a : ℕ) → a ≤ b → (r : ℕ) × (f (pos a) ≡ pos r) × (r ≤ 100))
    → AllWithin b scores
    → AllWithin 100 (map_scores f scores)
unfolding map_scores
map_scores-AllWithin f b image within_nil = within_nil
map_scores-AllWithin f b image (within_cons a e le rest) =
    let (r, h, small) = image a le in
    within_cons r (ap f e ∙ h) small (map_scores-AllWithin f b image rest)

-- DefaultNormalizeScore to MaxNodeScore brings scores that are not negative, and so small that 100 times
-- each of them is an int64, into the range from 0 to 100, reversed or not, so that RunScorePlugins
-- accepts them.
pub default_normalize-AllWithin :
    (reverse : Bool) (b : ℕ) (scores : NodeScoreList)
    → 100 * b < 2 ^ 63
    → AllWithin b scores
    → AllWithin 100 (default_normalize_score (pos 100) reverse scores)
unfolding default_normalize_score
default_normalize-AllWithin reverse b scores small within =
    let (top, e, low, high, bounded) = max_count-AllWithin 0 within (omega arith) in
    elim (Bool-cases (eqb_ℤ (pos top) (pos 0))) [
      | inl zero_top ↦
          rw (e, default_normalize_score, zero_top)
            (elim (Bool-cases reverse) [
              | inl flip ↦ rw flip (
                  map_scores-AllWithin (λ _. pos 100) top (λ a le. (100, refl, omega arith))
                    bounded)
              | inr keep ↦ rw keep (AllWithin-weaken top 100 (ground arith) bounded)
            ])
      | inr some_top ↦
          rw (e, default_normalize_score, some_top)
            (map_scores-AllWithin (normalized (pos 100) reverse top) top
              (λ a le. normalized-pos reverse top a le (omega arith)) bounded)
    ]
