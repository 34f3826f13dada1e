-- ===== src/Scheduler/Heap/Storage.antt =====
-- scheduler/internal/heap/heap.go: heapItem, itemKeyValue and data with its heap.Interface methods.
pub mod Laws
pub mod Updates
use cloud_prophet.Prelude.{
  ℕ, ◌+◌, ◌-◌, String, Bool, false, ◌||◌, Option, none, some, List, [], ◌∷◌, ◌++◌, ltb,
  if◌then◌else◌, length, get_elem?, set, take, string_eq, Run, ok, panic, ◌>>=◌, or_panic,
}
use cloud_prophet.Prelude.Map.{Map, lookup, insert, delete}
use cloud_prophet.Scheduler.Heap.Container.{Interface}

pub record HeapItem (A : Type 0) : Type 0 where
  pub obj : A
  pub index : ℕ

pub record ItemKeyValue (A : Type 0) : Type 0 where
  pub key : String
  pub obj : A

-- keyFunc and lessFunc never change: they are parameters of the operations.
pub record Data (A : Type 0) : Type 0 where
  pub items : Map String (HeapItem A)
  pub queue : List String

module _ {A : Type 0} where
  unfoldable pub len : Data A → ℕ
  len h = length h.queue

  -- item.index = i, where `item` is nil if the key has no entry.
  unfoldable pub set_index : String → ℕ → Map String (HeapItem A) → Run (Map String (HeapItem A))
  set_index k i items = elim (lookup k items) [
    | none ↦ panic
    | some item ↦ ok (insert k (record item { index = i }) items)
  ]

  unfoldable pub swap : Data A → ℕ → ℕ → Run (Data A)
  unfolding set_index
  swap h i j = do
    kj ← or_panic (get_elem? h.queue j)
    ki ← or_panic (get_elem? h.queue i)
    let queue = set (set h.queue i kj) j ki
    new_i ← or_panic (get_elem? queue i)
    items ← set_index new_i i h.items
    new_j ← or_panic (get_elem? queue j)
    items' ← set_index new_j j items
    ok (record { items = items'; queue = queue })

  unfoldable pub push : Data A → ItemKeyValue A → Run (Data A)
  push h kv = ok (record {
    items = insert kv.key (record { obj = kv.obj; index = length h.queue }) h.items;
    queue = h.queue ++ kv.key ∷ [];
  })

  -- nil, not a panic, for a key with no entry.
  unfoldable pub take_out : Data A → String → Option A × Data A
  take_out h key =
      let queue = take (length h.queue - 1) h.queue in
      elim (lookup key h.items) [
        | none ↦ (none, record h { queue = queue })
        | some item ↦ (some item.obj, record { items = delete key h.items; queue = queue })
      ]

  unfoldable pub pop : Data A → Run (Option A × Data A)
  unfolding take_out
  pop h = do
    key ← or_panic (if ltb 0 (length h.queue) then get_elem? h.queue (length h.queue - 1) else none)
    ok (take_out h key)

  unfoldable pub peek : Data A → Run (Option A)
  peek h =
      let first = do
        key ← or_panic (get_elem? h.queue 0)
        item ← or_panic (lookup key h.items)
        ok (some item.obj)
      in if ltb 0 (length h.queue) then first else ok none

  module _ (less_func : A → A → Bool) where
    unfoldable pub less : Data A → ℕ → ℕ → Run Bool
    less h i j =
        let found : Run Bool = do
          ki ← or_panic (get_elem? h.queue i)
          elim (lookup ki h.items) [
            | none ↦ ok false
            | some item_i ↦ or_panic (get_elem? h.queue j) >>= λ kj. elim (lookup kj h.items) [
              | none ↦ ok false
              | some item_j ↦ ok (less_func item_i.obj item_j.obj)
            ]
          ]
        in if ltb (length h.queue) i || ltb (length h.queue) j then ok false else found

    abbrev pub interface : Interface (Data A) (ItemKeyValue A) A
    interface = record { len = len; less = less; swap = swap; push = push; pop = pop }
