-- ===== src/Scheduler/Queue/Backoff.antt =====
-- scheduler/internal/queue/scheduling_queue.go: the backoff of a pod, and the order of the backoff
-- queue. A Duration is an int64 of nanoseconds, whose doubling wraps.
use cloud_prophet.Prelude.{
  ℕ, zero, suc, ◌+◌, ◌-◌, ◌*◌, ◌^◌, ◌≤◌, ◌<◌, ◌≡◌, sym, ◌∙◌, ap, Bool, arith, if◌then◌else◌,
  Bool-cases, inl, inr,
}
use Prim.Native.Nat.{min}
use native.Mathlib.Nat.{pow-suc}
use cloud_prophet.Prelude.Int.{
  ℤ, pos, ◌+ℤ◌, ◌≤ℤ◌, ltb_ℤ, wrap64, wrap64-pos, +ℤ_parts, ltb_ℤ-asym, ltb_ℤ-trans,
}
use cloud_prophet.Scheduler.Heap.Storage.Laws.{IsStrictWeak}
use cloud_prophet.Scheduler.Pod.{QueuedPodInfo}

pub record BackoffConfig : Type 0 where
  pub initial : ℤ
  pub max : ℤ

-- The rounds left of `for i := 1; i < podInfo.Attempts; i++`.
unfoldable pub backoff_loop : ℕ → ℤ → ℤ → ℤ
backoff_loop zero max duration = duration
backoff_loop (suc rounds) max duration =
    let doubled = wrap64 (duration +ℤ duration) in
    let rest = backoff_loop rounds max doubled in if ltb_ℤ max doubled then max else rest

unfoldable pub calculate_backoff_duration : BackoffConfig → QueuedPodInfo → ℤ
unfolding backoff_loop
calculate_backoff_duration c info = backoff_loop (info.attempts - 1) c.max c.initial

unfoldable pub get_backoff_time : BackoffConfig → QueuedPodInfo → ℤ
get_backoff_time c info = info.timestamp +ℤ calculate_backoff_duration c info

unfoldable pub is_pod_backing_off : BackoffConfig → ℤ → QueuedPodInfo → Bool
is_pod_backing_off c now info = ltb_ℤ now (get_backoff_time c info)

unfoldable pub pods_compare_backoff_completed : BackoffConfig → QueuedPodInfo → QueuedPodInfo → Bool
pods_compare_backoff_completed c a b = ltb_ℤ (get_backoff_time c a) (get_backoff_time c b)

+ℤ_pos : (a b : ℕ) → pos a +ℤ pos b ≡ pos (a + b)
unfolding ◌+ℤ◌
+ℤ_pos a b = ground arith

double : (d : ℕ) → d < 2 ^ 62 → wrap64 (pos d +ℤ pos d) ≡ pos (d + d)
double d h = rw (+ℤ_pos d d) (wrap64-pos (d + d) (omega arith))

two_pow_pos : (k : ℕ) → 0 < 2 ^ k
two_pow_pos zero = omega arith
two_pow_pos (suc k) = omega (arith, pow-suc 2 k, two_pow_pos k)

capped : (d k m : ℕ) → m < d + d → 0 < k → min (d * (k * 2)) m ≡ m
capped d k m h p = grind arith

double_mul : (d k : ℕ) → (d + d) * k ≡ d * (k * 2)
double_mul d k = grind arith

backoff_loop-min :
    (rounds m d : ℕ)
    → m < 2 ^ 62
    → d ≤ m
    → backoff_loop rounds (pos m) (pos d) ≡ pos (min (d * 2 ^ rounds) m)
unfolding backoff_loop
backoff_loop-min zero m d p q = ap pos (omega arith)
backoff_loop-min (suc rounds) m d p q =
    rw (double d (omega arith), pow-suc 2 rounds)
      (elim (Bool-cases (ltb_ℤ (pos m) (pos (d + d)))) [
        | inl over ↦
            rw over (ap pos (sym (capped d (2 ^ rounds) m (ground arith) (two_pow_pos rounds))))
        | inr below ↦ rw below (
            backoff_loop-min rounds m (d + d) p (ground arith)
            ∙ ap (λ x. pos (min x m)) (double_mul d (2 ^ rounds)))
      ])

-- From an initial backoff of at most the maximum, each attempt after the first doubles the backoff,
-- up to the maximum. Below 2 ^ 62 nanoseconds no doubling wraps.
pub calculate_backoff_duration_lem :
    (c : BackoffConfig) (info : QueuedPodInfo) (i m : ℕ)
    → c.initial ≡ pos i
    → c.max ≡ pos m
    → i ≤ m
    → m < 2 ^ 62
    → calculate_backoff_duration c info ≡ pos (min (i * 2 ^ (info.attempts - 1)) m)
unfolding calculate_backoff_duration
calculate_backoff_duration_lem c info i m e g p q =
    rw (e, g) (backoff_loop-min (info.attempts - 1) m i q p)

min_mono : (a b m : ℕ) → a ≤ b → min a m ≤ min b m
min_mono a b m h = omega arith

-- The pod stays in the backoff queue no longer than the maximum: what its backoff ends is at most
-- the time of its last attempt plus the maximum, and not before that attempt.
pub get_backoff_time_bounds :
    (c : BackoffConfig) (info : QueuedPodInfo) (i m : ℕ)
    → c.initial ≡ pos i
    → c.max ≡ pos m
    → i ≤ m
    → m < 2 ^ 62
    → (info.timestamp ≤ℤ get_backoff_time c info)
      × (get_backoff_time c info ≤ℤ info.timestamp +ℤ pos m)
unfolding get_backoff_time
get_backoff_time_bounds c info i m e g p q =
    rw (calculate_backoff_duration_lem c info i m e g p q)
      (omega (arith, +ℤ_parts), omega (arith, +ℤ_parts))

-- podsCompareBackoffCompleted is a strict weak order, so that the backoff queue is a heap.
pub pods_compare_backoff_completed-IsStrictWeak :
    (c : BackoffConfig) → IsStrictWeak (pods_compare_backoff_completed c)
unfolding pods_compare_backoff_completed
pods_compare_backoff_completed-IsStrictWeak c = record {
  asym = λ x y e. ltb_ℤ-asym (get_backoff_time c x) (get_backoff_time c y) e;
  trans = λ x y z d e.
      ltb_ℤ-trans (get_backoff_time c x) (get_backoff_time c y) (get_backoff_time c z) d e;
}
