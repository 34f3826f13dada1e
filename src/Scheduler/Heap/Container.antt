-- ===== src/Scheduler/Heap/Container.antt =====
-- Go's container/heap, as far as scheduler/internal/heap/heap.go calls it: Push, Pop, Remove, Fix
-- and the two sift loops, over heap.Interface.
use cloud_prophet.Prelude.{
  ℕ, zero, suc, ◌+◌, ◌-◌, ◌*◌, ◌/◌, Bool, Option, none, some, ltb, ◌==◌, if◌then◌else◌, Run, ok,
  out_of_fuel, ◌>>=◌,
}

-- heap.Interface. An index out of range panics; Pop returns nil where `none` stands.
pub record Interface (S X Y : Type 0) : Type 0 where
  pub len : S → ℕ
  pub less : S → ℕ → ℕ → Run Bool
  pub swap : S → ℕ → ℕ → Run S
  pub push : S → X → Run S
  pub pop : S → Run (Option Y × S)

abbrev pub parent : ℕ → ℕ
parent c = (c - 1) / 2

module _ {S X Y : Type 0} (h : Interface S X Y) where
  -- for { i := (j - 1) / 2; if i == j || !h.Less(j, i) { break }; h.Swap(i, j); j = i }
  unfoldable pub up_loop : ℕ → S → ℕ → Run S
  up_loop zero s j = out_of_fuel
  up_loop (suc k) s j =
      let i = parent j in
      let rise = h.swap s i j >>= λ t. up_loop k t i in
      let step = h.less s j i >>= λ smaller. if smaller then rise else ok s in
      if i == j then ok s else step

  -- The index strictly falls, so `suc j` rounds are enough.
  unfoldable pub up : S → ℕ → Run S
  up s j = up_loop (suc j) s j

  unfoldable pub smaller_child : S → ℕ → ℕ → Run ℕ
  smaller_child s i n =
      let j1 = 2 * i + 1 in
      let j2 = j1 + 1 in
      let right = h.less s j2 j1 >>= λ smaller. ok (if smaller then j2 else j1) in
      if ltb j2 n then right else ok j1

  -- One round of the loop in down: the next state and index, or `none` where the loop breaks.
  unfoldable pub down_step : S → ℕ → ℕ → Run (Option (S × ℕ))
  down_step s i n =
      let sink = smaller_child s i n >>= λ j. h.less s j i >>= λ smaller.
      if smaller then (h.swap s i j >>= λ t. ok (some (t, j))) else ok none in
      if ltb (2 * i + 1) n then sink else ok none

  unfoldable pub down_loop : ℕ → S → ℕ → ℕ → Run (S × ℕ)
  down_loop zero s i n = out_of_fuel
  down_loop (suc k) s i n =
      down_step s i n >>= elim [ none ↦ ok (s, i) | some (t, j) ↦ down_loop k t j n ]

  -- The index at least doubles and stays below `n`, so `suc n` rounds are enough.
  unfoldable pub down : S → ℕ → ℕ → Run (S × Bool)
  down s i n = down_loop (suc n) s i n >>= λ (t, last). ok (t, ltb i last)

  unfoldable pub push : S → X → Run S
  unfolding up
  push s x = h.push s x >>= λ t. up t (h.len t - 1)

  unfoldable pub pop : S → Run (Option Y × S)
  unfolding down
  pop s = let n = h.len s - 1 in h.swap s 0 n >>= λ t. down t 0 n >>= λ (u, _). h.pop u

  -- if !down(h, i, n) { up(h, i) }
  unfoldable pub settle : S → ℕ → ℕ → Run S
  unfolding down up
  settle s i n = down s i n >>= λ (t, moved). if moved then ok t else up t i

  unfoldable pub remove : S → ℕ → Run (Option Y × S)
  unfolding settle
  remove s i =
      let n = h.len s - 1 in
      let rest = h.swap s i n >>= λ t. settle t i n >>= h.pop in if n == i then h.pop s else rest

  unfoldable pub fix : S → ℕ → Run S
  unfolding settle
  fix s i = settle s i (h.len s)
