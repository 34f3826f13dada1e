-- ===== src/Scheduler/Core/Selection.antt =====
-- How many feasible nodes scheduler/core/generic_scheduler.go looks for, and which of them it takes.
use cloud_prophet.Prelude.{
  ◌≡◌, refl, sym, ap, ◌∙◌, ℕ, zero, suc, ◌+◌, ◌*◌, ◌/◌, ◌≤◌, ◌<◌, String, Bool, true, false, ◌⊎◌,
  inl, inr, some, [], ◌∷◌, if◌then◌else◌, ltb, ◌||◌, Bool-cases, arith,
}
use cloud_prophet.Prelude.Int.{
  ℤ, pos, pos_part, negsuc, ltb_ℤ, leb_ℤ, eqb_ℤ, ◌*ℤ◌, *ℤ-pos, ◌≤ℤ◌, eq_of_parts, ◌-ℤ◌, wrap32,
  wrap32-pos, quot,
}
use cloud_prophet.Scheduler.Framework.Plugins.{NodeScore, NodeScoreList}
use cloud_prophet.Scheduler.Core.Scores.{
  select_loop, select_host, num_feasible_nodes_to_find, adaptive_percentage,
}

-- The node of the name has a score that no score of the list exceeds.
pub data Best (name : String) (high : ℤ) : NodeScoreList → Type 0 where
  best_here :
      {ns : NodeScore} {rest : NodeScoreList}
      → ns.name ≡ name
      → ns.score ≡ high
      → Best name high (ns ∷ rest)
  best_later :
      {ns : NodeScore} {rest : NodeScoreList} → Best name high rest → Best name high (ns ∷ rest)

abbrev pub AllAtMost : ℤ → NodeScoreList → Type 0
AllAtMost high [] = Unit
AllAtMost high (ns ∷ rest) = (ns.score ≤ℤ high) × AllAtMost high rest

-- A node of the list with the name, and with a score that no score of the list exceeds.
pub data Chosen (scores : NodeScoreList) (name : String) : Type 0 where
  chosen : (high : ℤ) → Best name high scores → AllAtMost high scores → Chosen scores name

abbrev Reached : ℤ → NodeScoreList → String → String → Type 0
Reached high rest selected name =
    (top : ℤ) × (high ≤ℤ top)
    × AllAtMost top rest
    × (((name ≡ selected) × (top ≡ high)) ⊎ Best name top rest)

-- One turn of the loop.
abbrev Updated : ℤ → String → NodeScore → ℤ → String → Type 0
Updated high selected ns high' selected' =
    (high ≤ℤ high')
    × (ns.score ≤ℤ high')
    × (((selected' ≡ ns.name) × (high' ≡ ns.score)) ⊎ ((selected' ≡ selected) × (high' ≡ high)))

turn-Updated :
    (drawn : Bool) (high : ℤ) (selected : String) (ns : NodeScore)
    → let above = ltb_ℤ high ns.score in
      let taken = if above then true else if eqb_ℤ ns.score high then drawn else false in
      Updated high selected ns
        (if above then ns.score else high)
        (if taken then ns.name else selected)
turn-Updated drawn high selected ns = ground (arith, eq_of_parts ns.score high)

turn-Reached :
    (high high' : ℤ) (selected selected' name : String) (ns : NodeScore) (rest : NodeScoreList)
    → Updated high selected ns high' selected'
    → Reached high' rest selected' name
    → Reached high (ns ∷ rest) selected name
turn-Reached high high' selected selected' name ns rest (up, over, which) (top, le, all, reached) =
    (
      top,
      omega arith,
      (omega arith, all),
      elim reached [
        | inl (e, e') ↦ elim which [
          | inl (n, h) ↦ inr (best_here (sym (e ∙ n)) (sym (e' ∙ h)))
          | inr (n, h) ↦ inl (e ∙ n, e' ∙ h)
        ]
        | inr best ↦ inr (best_later best)
      ],
    )

select_loop-Reached :
    (draw : ℕ → Bool) (i : ℕ) (rest : NodeScoreList) (high : ℤ) (selected : String) (count : ℕ)
    → Reached high rest selected (select_loop draw i rest high selected count)
unfolding select_loop
select_loop-Reached draw i [] high selected count = (high, omega arith, tt, inl (refl, refl))
select_loop-Reached draw i (ns ∷ rest) high selected count =
    turn-Reached high _ selected _ _ ns rest (turn-Updated (draw i) high selected ns)
      (select_loop-Reached draw (suc i) rest _ _ _)

-- Whatever the random numbers are, selectHost of a list that is not empty returns the name of a node
-- whose score is the greatest of the list.
pub select_host-Chosen :
    (draw : ℕ → Bool) (first : NodeScore) (rest : NodeScoreList)
    → (name : String) × (select_host draw (first ∷ rest) ≡ some name) × Chosen (first ∷ rest) name
unfolding select_host
select_host-Chosen draw first rest =
    let name = select_loop draw 1 rest first.score first.name 1 in
    let (top, le, all, reached) = select_loop-Reached draw 1 rest first.score first.name 1 in
    (
      name,
      refl,
      elim reached [
        | inl (e, e') ↦ chosen top (best_here (sym e) (sym e')) (le, all)
        | inr best ↦ chosen top (best_later best) (le, all)
      ],
    )

mul_le_mul : (a b n : ℕ) → a ≤ b → n * a ≤ n * b
mul_le_mul a b zero h = omega arith
mul_le_mul a b (suc n) h = omega (arith, mul_le_mul a b n h)

-- The part of all nodes, in percent.
abbrev IsPercentage : ℤ → ℤ → Type 0
IsPercentage percentage adaptive =
    (a : ℕ) × (adaptive ≡ pos a) × (a ≤ 99) × (percentage ≤ℤ pos 0 → 5 ≤ a)

base_value : (q : ℕ) → q ≤ 160000 → wrap32 (pos 50 -ℤ pos q) ≤ℤ pos 50
unfolding wrap32 ◌-ℤ◌
base_value q h = ground arith

at_least_5 :
    (v : ℤ)
    → v ≤ℤ pos 50
    → (a : ℕ) × ((if ltb_ℤ v (pos 5) then pos 5 else v) ≡ pos a) × (5 ≤ a) × (a ≤ 50)
at_least_5 (pos v) h =
    let r = if ltb v 5 then 5 else v in (r, ground arith, ground arith, ground arith)
at_least_5 (negsuc v) h = (5, ground arith, omega arith, omega arith)

adaptive-IsPercentage :
    (percentage : ℤ) (n : ℕ)
    → n ≤ 20000000
    → leb_ℤ (pos 100) percentage ≡ false
    → IsPercentage percentage (adaptive_percentage percentage (pos n))
unfolding adaptive_percentage quot
adaptive-IsPercentage percentage n small below = elim (Bool-cases (leb_ℤ percentage (pos 0))) [
  | inl unset ↦
      let (a, e, low, high) =
        at_least_5 (wrap32 (pos 50 -ℤ pos (n / 125))) (base_value (n / 125) (omega arith)) in
      (a, rw (adaptive_percentage, unset) e, omega arith, λ h. low)
  | inr given ↦ (
    pos_part percentage,
    rw (adaptive_percentage, given) (ground (arith)),
    ground arith,
    ground arith,
  )
]

feasible-Enough :
    (adaptive n : ℕ)
    → n ≤ 20000000
    → adaptive ≤ 99
    → wrap32 (pos n *ℤ pos adaptive) ≡ pos (n * adaptive)
feasible-Enough adaptive n small le =
    let product = mul_le_mul adaptive 99 n le in
    ap wrap32 (*ℤ-pos n adaptive) ∙ wrap32-pos (n * adaptive) (omega arith)

-- For at most 20 million nodes the scheduler never looks for more nodes than there are. It looks for all of
-- them below 100 and for at least 100 otherwise, and at least for 5 percent of them where no percentage
-- is configured.
pub num_feasible-Enough :
    (percentage : ℤ) (n : ℕ)
    → n ≤ 20000000
    → (found : ℕ) × (num_feasible_nodes_to_find percentage (pos n) ≡ pos found)
      × (found ≤ n)
      × (n < 100 → found ≡ n)
      × (100 ≤ n → 100 ≤ found)
      × (percentage ≤ℤ pos 0 → n ≤ 20 * found + 19)
unfolding num_feasible_nodes_to_find quot
num_feasible-Enough percentage n small =
    elim (Bool-cases (ltb_ℤ (pos n) (pos 100) || leb_ℤ (pos 100) percentage)) [
      | inl all ↦ (
        n,
        rw (num_feasible_nodes_to_find, all) refl,
        omega arith,
        (λ h. refl),
        (λ h. h),
        λ h. omega arith,
      )
      | inr some_only ↦
          let (a, e, le, floor) = adaptive-IsPercentage percentage n small (ground arith) in
          let product = feasible-Enough a n small le in
          let most = mul_le_mul a 99 n le in
          let share = n * a / 100 in
          let found = if ltb share 100 then 100 else share in
          (
            found,
            rw (num_feasible_nodes_to_find, some_only, e, product) (ground arith),
            ground arith,
            ground arith,
            ground arith,
            λ h. (let least = mul_le_mul 5 a n (floor h) in ground arith),
          )
    ]
