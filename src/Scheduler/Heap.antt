-- ===== src/Scheduler/Heap.antt =====
-- scheduler/internal/heap/heap.go: Heap. KeyFunc and lessFunc are the parameters of the sections;
-- the recorder is the value of its gauge, if there is one (scheduler/metrics/metric_recorder.go).
pub mod Container
pub mod Sift
pub mod Storage
pub mod Spec
use mathlib.Core.Option
use cloud_prophet.Prelude.{
  ℕ, String, Bool, true, false, Option, none, some, List, [], map, length, string_eq, Run, ok,
  ◌>>=◌, Result, value, error,
}
use cloud_prophet.Prelude.Int.{ℤ, pos, ◌+ℤ◌, ◌-ℤ◌}
use cloud_prophet.Prelude.Map.{lookup, insert}
use Container.{fix}
use Container
use Storage.{Data, HeapItem, interface}
use Storage

-- nil, or a PendingPodsRecorder with the value of its gauge.
abbrev pub MetricRecorder : Type 0
MetricRecorder = Option ℤ

abbrev pub inc : MetricRecorder → MetricRecorder
inc = Option.map (λ n. n +ℤ pos 1)

abbrev pub dec : MetricRecorder → MetricRecorder
dec = Option.map (λ n. n -ℤ pos 1)

abbrev pub clear : MetricRecorder → MetricRecorder
clear = Option.map (λ n. pos 0)

pub record Heap (A : Type 0) : Type 0 where
  pub store : Data A
  pub metric_recorder : MetricRecorder

pub data HeapError (A : Type 0) : Type 0 where
  key_error : A → String → HeapError A
  object_not_found object_was_removed : HeapError A

module _ {A : Type 0} where
  unfoldable pub new_with_recorder : MetricRecorder → Heap A
  new_with_recorder r = record { store = record { items = []; queue = [] }; metric_recorder = r }

  pub new : Heap A
  new = new_with_recorder none

  unfoldable pub get_by_key : Heap A → String → Option A
  get_by_key h key = Option.map (λ item. item.obj) (lookup key h.store.items)

  pub peek : Heap A → Run (Option A)
  peek h = Storage.peek h.store

  unfoldable pub list : Heap A → List A
  list h = map (λ (k, item). item.obj) h.store.items

  unfoldable pub len : Heap A → ℕ
  len h = Storage.len h.store

module _ {A : Type 0} (key_func : A → Result String String) (less_func : A → A → Bool) where
  unfoldable pub push_new : Heap A → String → A → Run (Heap A)
  push_new h key obj =
      Container.push (interface less_func) h.store (record { key = key; obj = obj }) >>= λ d.
      ok (record { store = d; metric_recorder = inc h.metric_recorder })

  unfoldable pub replace : Heap A → String → HeapItem A → A → Run (Heap A)
  replace h key item obj =
      let items = insert key (record item { obj = obj }) h.store.items in
      fix (interface less_func) (record (h.store) { items = items }) item.index >>= λ d.
      ok (record h { store = d })

  unfoldable pub add : Heap A → A → Run (Heap A × Option (HeapError A))
  unfolding push_new replace
  add h obj = elim (key_func obj) [
    | error e ↦ ok (h, some (key_error obj e))
    | value key ↦ elim (lookup key h.store.items) [
      | some item ↦ replace h key item obj >>= λ h'. ok (h', none)
      | none ↦ push_new h key obj >>= λ h'. ok (h', none)
    ]
  ]

  unfoldable pub add_if_not_present : Heap A → A → Run (Heap A × Option (HeapError A))
  unfolding push_new
  add_if_not_present h obj = elim (key_func obj) [
    | error e ↦ ok (h, some (key_error obj e))
    | value key ↦ elim (lookup key h.store.items) [
      | some item ↦ ok (h, none)
      | none ↦ push_new h key obj >>= λ h'. ok (h', none)
    ]
  ]

  abbrev pub update : Heap A → A → Run (Heap A × Option (HeapError A))
  update = add

  unfoldable pub delete : Heap A → A → Run (Heap A × Option (HeapError A))
  delete h obj = elim (key_func obj) [
    | error e ↦ ok (h, some (key_error obj e))
    | value key ↦ elim (lookup key h.store.items) [
      | none ↦ ok (h, some object_not_found)
      | some item ↦ Container.remove (interface less_func) h.store item.index >>= λ (o, d).
          ok (record { store = d; metric_recorder = dec h.metric_recorder }, none)
    ]
  ]

  unfoldable pub pop : Heap A → Run (Heap A × Result (HeapError A) A)
  pop h = Container.pop (interface less_func) h.store >>= λ (o, d). elim o [
    | some obj ↦ ok (record { store = d; metric_recorder = dec h.metric_recorder }, value obj)
    | none ↦ ok (record h { store = d }, error object_was_removed)
  ]

  unfoldable pub get : Heap A → A → Result (HeapError A) (Option A)
  unfolding get_by_key
  get h obj = elim (key_func obj) [
    | error e ↦ error (key_error obj e)
    | value key ↦ value (get_by_key h key)
  ]
