-- ===== src/Scheduler/Plugins/Allocation/Share.antt =====
-- The range of the scores of noderesources/least_allocated.go and noderesources/most_allocated.go.
use cloud_prophet.Prelude.{
  ◌≡◌, refl, ap, ◌∙◌, ℕ, ◌+◌, ◌-◌, ◌*◌, ◌/◌, ◌^◌, ◌≤◌, ◌<◌, String, Bool, true, false, inl, inr,
  Option, none, some, string_eq, ◌===◌, [], ◌∷◌, if◌then◌else◌, Bool-cases, ok, panic, Returns,
  returns, Returns-if, arith,
}
use native.Mathlib.Nat.{div-le_of_le-mul}
use cloud_prophet.Prelude.Int.{
  ℤ, pos, wrap64, wrap64-pos, quot, ltb_ℤ, eqb_ℤ, +ℤ-pos, ◌-ℤ◌, -ℤ-pos, ◌*ℤ◌, *ℤ-pos,
}
use cloud_prophet.Prelude.Map.{Map, lookup}
use cloud_prophet.Scheduler.NodeInfo.Resources.{scalar, plus}
use cloud_prophet.Scheduler.Framework.Scoring.Bounds.{mul_le_mul}
use cloud_prophet.Scheduler.Plugins.Allocation.{
  quot_ℤ, least_requested_score, most_requested_score, weigh_resources, resource_scorer,
  least_resource_scorer, most_resource_scorer,
}

-- A score of a single resource that is a percentage, for a request that is not negative and a capacity of
-- which 100 times is an int64.
abbrev IsPercentage : (ℤ → ℤ → ℤ) → Type 0
IsPercentage f = (a c : ℕ) → 100 * c < 2 ^ 63 → (r : ℕ) × (f (pos a) (pos c) ≡ pos r) × (r ≤ 100)

part : (a c : ℕ) → a ≤ c → a * 100 / c ≤ 100
part a c le = div-le_of_le-mul c (omega arith)

percent : (a c : ℕ) → a ≤ c → 100 * c < 2 ^ 63 → wrap64 (pos a *ℤ pos 100) ≡ pos (a * 100)
percent a c le small = ap wrap64 (*ℤ-pos a 100) ∙ wrap64-pos (a * 100) (omega arith)

most-IsPercentage : IsPercentage most_requested_score
unfolding most_requested_score quot_ℤ quot
most-IsPercentage a c small = elim (Bool-cases (eqb_ℤ (pos c) (pos 0))) [
  | inl empty ↦ (0, rw empty refl, omega arith)
  | inr full ↦ elim (Bool-cases (ltb_ℤ (pos c) (pos a))) [
    | inl over ↦ (0, rw (full, over) refl, omega arith)
    | inr under ↦
        let le : a ≤ c = ground arith in
        (a * 100 / c, rw (full, under, percent a c le small) refl, part a c le)
  ]
]

least-IsPercentage : IsPercentage least_requested_score
unfolding least_requested_score quot_ℤ quot
least-IsPercentage a c small = elim (Bool-cases (eqb_ℤ (pos c) (pos 0))) [
  | inl empty ↦ (0, rw empty refl, omega arith)
  | inr full ↦ elim (Bool-cases (ltb_ℤ (pos c) (pos a))) [
    | inl over ↦ (0, rw (full, over) refl, omega arith)
    | inr under ↦
        let le : a ≤ c = ground arith in
        let free : wrap64 (pos c -ℤ pos a) ≡ pos (c - a) =
          ap wrap64 (-ℤ-pos c a le) ∙ wrap64-pos (c - a) (omega arith) in
        let down : c - a ≤ c = omega arith in
        (
          (c - a) * 100 / c,
          rw (full, under, free, percent (c - a) c down small) refl,
          part (c - a) c down,
        )
  ]
]

-- The weights are not negative and sum up to `total`.
pub data SumsTo : ℕ → Map String ℤ → Type 0 where
  sums_nil : SumsTo 0 []
  sums_cons :
      {name : String} {weights : Map String ℤ} (n total : ℕ)
      → SumsTo total weights
      → SumsTo (n + total) ((name, pos n) ∷ weights)

-- No request is negative, and of a capacity 100 times is an int64.
abbrev pub IsMeasured : Map String ℤ → Map String ℤ → Type 0
IsMeasured requested allocatable =
    (name : String)
    → (a c : ℕ) × (scalar name requested ≡ pos a)
      × (scalar name allocatable ≡ pos c)
      × (100 * c < 2 ^ 63)

pub IsMeasured-nil : IsMeasured [] []
unfolding lookup
IsMeasured-nil name = (0, 0, refl, refl, omega arith)

scalar-here :
    (test : Bool) (v : ℤ) (o : Option ℤ)
    → test ≡ true
    → (elim (if test then some v else o) as (λ _. ℤ) [ none ↦ pos 0 | some q ↦ q ]) ≡ v
scalar-here true v o e = refl
scalar-here false v o e = ground arith

scalar-there :
    (test : Bool) (v : ℤ) (o : Option ℤ)
    → test ≡ false
    → (elim (if test then some v else o) as (λ _. ℤ) [ none ↦ pos 0 | some q ↦ q ])
      ≡ (elim o as (λ _. ℤ) [ none ↦ pos 0 | some q ↦ q ])
scalar-there true v o e = ground arith
scalar-there false v o e = refl

pub IsMeasured-cons :
    (key : String) (a c : ℕ) (requested allocatable : Map String ℤ)
    → 100 * c < 2 ^ 63
    → IsMeasured requested allocatable
    → IsMeasured ((key, pos a) ∷ requested) ((key, pos c) ∷ allocatable)
unfolding lookup
IsMeasured-cons key a c requested allocatable small rest name = elim (Bool-cases (key === name)) [
  | inl same ↦ (
    a,
    c,
    scalar-here (key === name) (pos a) (lookup name requested) same,
    scalar-here (key === name) (pos c) (lookup name allocatable) same,
    small,
  )
  | inr other ↦
      let (b, d, is_b, is_d, fits) = rest name in
      (
        b,
        d,
        scalar-there (key === name) (pos a) (lookup name requested) other ∙ is_b,
        scalar-there (key === name) (pos c) (lookup name allocatable) other ∙ is_d,
        fits,
      )
]

plus-pos : (a b : ℕ) → a + b < 2 ^ 63 → plus (pos a) (pos b) ≡ pos (a + b)
plus-pos a b small = ap wrap64 (+ℤ-pos a b) ∙ wrap64-pos (a + b) small

weigh-Bounded :
    (f : ℤ → ℤ → ℤ) (requested allocatable : Map String ℤ)
    → IsPercentage f
    → IsMeasured requested allocatable
    → {weights : Map String ℤ} (s w total : ℕ) → SumsTo total weights
    → s ≤ 100 * w
    → 100 * (w + total) < 2 ^ 63
    → (s' : ℕ) × (weigh_resources f requested allocatable weights (pos s) (pos w)
        ≡ (pos s', pos (w + total)))
      × (s' ≤ 100 * (w + total))
unfolding weigh_resources
weigh-Bounded f requested allocatable percentage measured s w _ sums_nil le small =
    (s, ap (λ n. (pos s, pos n)) (omega arith), omega arith)
weigh-Bounded f requested allocatable percentage measured s w _
      (sums_cons {name = name} {weights = weights} n total rest) le small =
    let (a, c, at_request, at_capacity, fits) = measured name in
    let (r, share, top) = percentage a c fits in
    let least = mul_le_mul r 100 n top in
    let product : wrap64 (pos r *ℤ pos n) ≡ pos (r * n) =
      ap wrap64 (*ℤ-pos r n) ∙ wrap64-pos (r * n) (omega arith) in
    let score = plus-pos s (r * n) (omega arith) in
    let weight = plus-pos w n (omega arith) in
    let (s', e, bound) =
      weigh-Bounded f requested allocatable percentage measured (s + r * n) (w + n) total rest
        (omega arith) (omega arith) in
    let sum : w + n + total ≡ w + (n + total) = omega arith in
    (
      s',
      rw (at_request, at_capacity, share, product, score, weight)
          (e ∙ ap (λ m. (pos s', pos m)) sum),
      omega arith,
    )

-- A number between 0 and 100.
abbrev pub WithinScore : ℤ → Type 0
WithinScore s = (r : ℕ) × (s ≡ pos r) × (r ≤ 100)

divide-WithinScore :
    (s w : ℕ)
    → s ≤ 100 * w
    → 0 < w
    → Returns WithinScore (if eqb_ℤ (pos w) (pos 0) then panic else ok (quot_ℤ (pos s) (pos w)))
unfolding quot_ℤ quot
divide-WithinScore s w le positive =
    Returns-if (eqb_ℤ (pos w) (pos 0)) (λ empty. absurd (ground arith))
      λ full. returns (s / w, refl, div-le_of_le-mul w (omega arith))

resource_scorer-WithinScore :
    (f : ℤ → ℤ → ℤ) {weights : Map String ℤ} (requested allocatable : Map String ℤ) (total : ℕ)
    → IsPercentage f
    → IsMeasured requested allocatable
    → SumsTo total weights
    → 0 < total
    → 100 * total < 2 ^ 63
    → Returns WithinScore (resource_scorer f weights requested allocatable)
unfolding resource_scorer quot_ℤ quot
resource_scorer-WithinScore f requested allocatable total percentage measured sums some_weight
      small =
    let (s, e, bound) =
      weigh-Bounded f requested allocatable percentage measured 0 0 total sums (omega arith)
        (omega arith) in
    rw (resource_scorer, e) (divide-WithinScore s (0 + total) bound (omega arith))

-- With weights that are not negative, not all 0, and of which 100 times the sum is an int64, with requests
-- that are not negative, and with capacities of which 100 times is an int64, the scorers of LeastAllocated
-- and of MostAllocated both return, without a division by 0, and their score is between 0 and 100.
pub scorers-WithinScore :
    {weights : Map String ℤ} (requested allocatable : Map String ℤ) (total : ℕ)
    → IsMeasured requested allocatable
    → SumsTo total weights
    → 0 < total
    → 100 * total < 2 ^ 63
    → Returns WithinScore (least_resource_scorer weights requested allocatable)
      × Returns WithinScore (most_resource_scorer weights requested allocatable)
unfolding least_resource_scorer most_resource_scorer
scorers-WithinScore requested allocatable total measured sums some_weight small = (
  resource_scorer-WithinScore least_requested_score requested allocatable total least-IsPercentage
      measured sums some_weight small,
  resource_scorer-WithinScore most_requested_score requested allocatable total most-IsPercentage
      measured sums some_weight small,
)
