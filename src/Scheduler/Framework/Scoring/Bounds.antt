-- ===== src/Scheduler/Framework/Scoring/Bounds.antt =====
-- The range of the weighted scores of scheduler/framework/runtime/framework.go.
use cloud_prophet.Prelude.{
  ◌≡◌, refl, ap, ◌∙◌, ℕ, zero, suc, ◌*◌, ◌^◌, ◌≤◌, ◌<◌, String, false, ◌||◌, inl, inr, [], ◌∷◌,
  Bool-cases, OnValue, no_value, has_value, OnValue-and_then, OnValue-if, OnValue-both, length,
  arith,
}
use cloud_prophet.Prelude.Int.{ℤ, pos, negsuc, wrap64, wrap64-pos, *ℤ-pos, ltb_ℤ, ◌*ℤ◌}
use cloud_prophet.Scheduler.Framework.Plugins.{NodeScore, NodeScoreList}
use cloud_prophet.Scheduler.Framework.Scoring.{weigh, max_node_score, min_node_score}

-- Every score is at least 0 and at most `b`.
pub data AllWithin (b : ℕ) : NodeScoreList → Type 0 where
  within_nil : AllWithin b []
  within_cons :
      {s : NodeScore} {ss : NodeScoreList} (a : ℕ)
      → s.score ≡ pos a
      → a ≤ b
      → AllWithin b ss
      → AllWithin b (s ∷ ss)

pub AllWithin-weaken :
    (b c : ℕ) {scores : NodeScoreList} → b ≤ c → AllWithin b scores → AllWithin c scores
AllWithin-weaken b c le within_nil = within_nil
AllWithin-weaken b c le (within_cons a e h rest) =
    within_cons a e (omega arith) (AllWithin-weaken b c le rest)

pub mul_le_mul : (a b n : ℕ) → a ≤ b → a * n ≤ b * n
mul_le_mul a b zero h = omega arith
mul_le_mul a b (suc n) h = omega (arith, mul_le_mul a b n h)

valid_score :
    (s : ℤ)
    → (ltb_ℤ max_node_score s || ltb_ℤ s min_node_score) ≡ false
    → (a : ℕ) × (s ≡ pos a) × (a ≤ 100)
valid_score (pos a) h = (a, refl, ground arith)
valid_score (negsuc a) h = ground arith

weighted_score :
    (a n : ℕ) → a ≤ 100 → n < 2 ^ 31 → (wrap64 (pos a *ℤ pos n) ≡ pos (a * n)) × (a * n ≤ 100 * n)
weighted_score a n h small =
    let least = mul_le_mul a 100 n h in
    (ap wrap64 (*ℤ-pos a n) ∙ wrap64-pos (a * n) (omega arith), least)

weigh-AllWithin :
    (show_int : ℤ → String) (plugin : String) (n : ℕ) (l : NodeScoreList)
    → n < 2 ^ 31
    → OnValue (AllWithin (100 * n)) (weigh show_int plugin (pos n) l)
unfolding weigh
weigh-AllWithin show plugin n [] small = has_value within_nil
weigh-AllWithin show plugin n (s ∷ ss) small =
    elim (Bool-cases (ltb_ℤ max_node_score s.score || ltb_ℤ s.score min_node_score)) [
      | inl bad ↦ rw (bad, weigh) no_value
      | inr good ↦
          let (a, e, h) = valid_score s.score good in
          let (exact, least) = weighted_score a n h small in
          rw (good, weigh)
            (OnValue-and_then (weigh-AllWithin show plugin n ss small) λ ws within.
              has_value
                (within_cons (a * n) (ap (λ x. wrap64 (x *ℤ pos n)) e ∙ exact) least within))
    ]

weigh-length :
    (show_int : ℤ → String) (plugin : String) (weight : ℤ) (l : NodeScoreList)
    → OnValue (λ ws. length ws ≡ length l) (weigh show_int plugin weight l)
unfolding weigh
weigh-length show plugin weight [] = has_value refl
weigh-length show plugin weight (s ∷ ss) =
    OnValue-if (ltb_ℤ max_node_score s.score || ltb_ℤ s.score min_node_score) (λ bad. no_value)
      λ good. OnValue-and_then (weigh-length show plugin weight ss) λ ws e. has_value (ap suc e)

-- What `weigh` gives for a weight that is an int32 and not negative.
pub weigh-Weighed :
    (show_int : ℤ → String) (plugin : String) (n : ℕ) (l : NodeScoreList)
    → n < 2 ^ 31
    → OnValue
        (λ ws. AllWithin (100 * n) ws × (length ws ≡ length l))
        (weigh show_int plugin (pos n) l)
weigh-Weighed show plugin n l small =
    OnValue-both (weigh-AllWithin show plugin n l small) (weigh-length show plugin (pos n) l)
