-- ===== src/Scheduler/Heap/Storage/Laws.antt =====
-- The items map and the queue of data agree, and data is a lawful heap.Interface.
use cloud_prophet.Prelude.{
  ℕ, ◌<◌, ◌≡◌, refl, ap, ◌∙◌, fun_ext, String, Bool, true, false, Option, none, some, List, arith,
  if◌then◌else◌, get_elem?, set, get_elem?-set, get_elem?-some, length-set, string_eq, ◌===◌, ok,
  Returns, returns,
}
use cloud_prophet.Prelude.Map.{Map, lookup, insert, lookup-insert}
use cloud_prophet.Scheduler.Heap.Sift.{exchange, Swapped, Lawful}
use cloud_prophet.Scheduler.Heap.Storage.{HeapItem, Data, len, swap, less, set_index, interface}

module _ {A : Type 0} where
  abbrev pub index_in : Option (HeapItem A) → Option ℕ
  index_in none = none
  index_in (some item) = some item.index

  abbrev pub obj_in : Option (HeapItem A) → Option A
  obj_in none = none
  obj_in (some item) = some item.obj

  -- "The items in the map are in the queue and vice versa", at the index that the item holds.
  pub record IsConsistent (h : Data A) : Type 0 where
    pub indexed :
        (k : String) (i : ℕ) → get_elem? h.queue i ≡ some k → index_in (lookup k h.items) ≡ some i
    pub queued :
        (k : String) (i : ℕ) → index_in (lookup k h.items) ≡ some i → get_elem? h.queue i ≡ some k

  -- The map from keys to objects that a heap stands for.
  unfoldable pub content : Data A → String → Option A
  content h k = obj_in (lookup k h.items)

  abbrev pub place : Data A → ℕ → Option String
  place h i = get_elem? h.queue i

  abbrev pub at_key : (String → Option A) → Option String → Option A
  at_key c none = none
  at_key c (some k) = c k

  abbrev pub obj_at : Data A → ℕ → Option A
  obj_at h i = at_key (content h) (place h i)

  abbrev pub goes_before : (A → A → Bool) → Option A → Option A → Bool
  goes_before f (some a) (some b) = f a b
  goes_before f (some a) none = false
  goes_before f none b = false

  abbrev pub before : (A → A → Bool) → Data A → ℕ → ℕ → Bool
  before f h i j = goes_before f (obj_at h i) (obj_at h j)

  pub lookup_at :
      (h : Data A) (k : String) (i : ℕ)
      → IsConsistent h
      → get_elem? h.queue i ≡ some k
      → (item : HeapItem A) × (lookup k h.items ≡ some item) × (item.index ≡ i)
  lookup_at h k i v e = go (lookup k h.items) refl
    where
      go :
          (o : Option (HeapItem A))
          → lookup k h.items ≡ o
          → (item : HeapItem A) × (lookup k h.items ≡ some item) × (item.index ≡ i)
      go none n = absurd (ground (arith, v.indexed k i e))
      go (some item) s = (item, s, ground (arith, v.indexed k i e))

  -- Two keys at one place are one, and one key has one place.
  pub place-injective :
      (h : Data A) (k : String) (i j : ℕ)
      → IsConsistent h
      → place h i ≡ some k
      → place h j ≡ some k
      → i ≡ j
  place-injective h k i j v p q = ground (arith, v.indexed k i p, v.indexed k j q)

-- The order that the heap needs of lessFunc.
pub record IsStrictWeak {A : Type 0} (f : A → A → Bool) : Type 0 where
  pub asym : (a b : A) → f a b ≡ true → f b a ≡ false
  pub trans : (a b c : A) → f a b ≡ false → f b c ≡ false → f a c ≡ false

module _ {A : Type 0} (f : A → A → Bool) where
  less_ok :
      (h : Data A) (i j : ℕ)
      → IsConsistent h
      → i < len h
      → j < len h
      → less f h i j ≡ ok (before f h i j)
  unfolding less len content
  less_ok h i j v p q =
      let (ki, ei) = get_elem?-some h.queue i p in
      let (kj, ej) = get_elem?-some h.queue j q in
      let (a, ai, _) = lookup_at h ki i v ei in
      let (b, bj, _) = lookup_at h kj j v ej in ground arith

set_index_obj :
    {A : Type 0} (k : String) (i : ℕ) (o : A) (items : Map String (HeapItem A))
    → obj_in (lookup k items) ≡ some o
    → set_index k i items ≡ ok (insert k (record { obj = o; index = i }) items)
unfolding set_index
set_index_obj k i o items e = ground arith

module _ {A : Type 0} (h : Data A) (i j : ℕ) (v : IsConsistent h) (p : i < len h) (q : j < len h)
    (ki kj : String) (ei : get_elem? h.queue i ≡ some ki) (ej : get_elem? h.queue j ≡ some kj)
    (a b : HeapItem A) (ai : lookup ki h.items ≡ some a) (bj : lookup kj h.items ≡ some b) where
  abbrev swapped_queue : List String
  swapped_queue = set (set h.queue i kj) j ki

  abbrev swapped_items : Map String (HeapItem A)
  swapped_items =
      insert ki (record { obj = a.obj; index = j }) (insert kj (record b { index = i }) h.items)

  swapped : Data A
  swapped = record { items = swapped_items; queue = swapped_queue }

  queue_at : (c : ℕ) → get_elem? swapped_queue c ≡ get_elem? h.queue (exchange i j c)
  unfolding len
  queue_at c = ground (
    arith,
    ei,
    ej,
    length-set h.queue i kj,
    get_elem?-set h.queue i c kj p,
    get_elem?-set (set h.queue i kj) j c ki (rw length-set q),
  )

  items_at :
      (k : String)
      → lookup k swapped_items ≡ (
          if ki === k
          then some (record { obj = a.obj; index = j })
          else if kj === k
          then some (record b { index = i })
          else lookup k h.items)
  items_at k = rw (lookup-insert, lookup-insert)

  at_i : get_elem? swapped_queue i ≡ some kj
  at_i = ground (arith, queue_at i, ej)

  at_j : get_elem? swapped_queue j ≡ some ki
  at_j = ground (arith, queue_at j, ei, ej)

  swap-swapped : swap h i j ≡ ok swapped
  unfolding swap swapped
  swap-swapped = rw (
    ej,
    ei,
    at_i,
    set_index_obj kj i b.obj h.items (ap obj_in bj),
    at_j,
    set_index_obj ki j a.obj (insert kj (record b { index = i }) h.items) (
        ground (
          arith,
          lookup-insert kj ki (record b { index = i }) h.items,
          ai,
          bj,
          string_eq.beq_iff kj ki,
        )),
  )

  swapped-indexed :
      (k : String) (c : ℕ)
      → get_elem? swapped_queue c ≡ some k
      → index_in (lookup k swapped_items) ≡ some c
  swapped-indexed k c e = ground (
    arith,
    items_at k,
    queue_at c,
    ei,
    ej,
    v.indexed k (exchange i j c),
    v.indexed ki i ei,
    v.indexed kj j ej,
    string_eq.beq_iff ki k,
    string_eq.beq_iff kj k,
  )

  swapped-queued :
      (k : String) (c : ℕ)
      → index_in (lookup k swapped_items) ≡ some c
      → get_elem? swapped_queue c ≡ some k
  swapped-queued k c e = ground (
    arith,
    items_at k,
    queue_at c,
    ei,
    ej,
    v.queued k c,
    v.indexed ki i ei,
    v.indexed kj j ej,
    string_eq.beq_iff ki k,
    string_eq.beq_iff kj k,
  )

  content-swapped : content swapped ≡ content h
  unfolding content swapped
  content-swapped =
      fun_ext
        λ k. ground (arith, items_at k, ai, bj, string_eq.beq_iff ki k, string_eq.beq_iff kj k)

  swapped-Swapped :
      (f : A → A → Bool) → Swapped IsConsistent len (before f) place content h i j swapped
  unfolding swapped len
  swapped-Swapped f = record {
    valid = record { indexed = swapped-indexed; queued = swapped-queued };
    sized = length-set _ j ki ∙ length-set h.queue i kj;
    viewed = content-swapped;
    placed = queue_at;
    ordered = λ c d. rw (queue_at c, queue_at d, content-swapped);
  }

module _ {A : Type 0} (f : A → A → Bool) (w : IsStrictWeak f) where
  swap_ok :
      (h : Data A) (i j : ℕ)
      → IsConsistent h
      → i < len h
      → j < len h
      → Returns (Swapped IsConsistent len (before f) place content h i j) (swap h i j)
  swap_ok h i j v p q =
      let (ki, ei) = get_elem?-some h.queue i (unfold len in p) in
      let (kj, ej) = get_elem?-some h.queue j (unfold len in q) in
      let (a, ai, _) = lookup_at h ki i v ei in
      let (b, bj, _) = lookup_at h kj j v ej in
      rw (swap-swapped h i j v p q ki kj ei ej a b ai bj)
        (returns (swapped-Swapped h i j v p q ki kj ei ej a b ai bj f))

  before-asym : (h : Data A) (i j : ℕ) → before f h i j ≡ true → before f h j i ≡ false
  before-asym h i j e = goes_before-asym (obj_at h i) (obj_at h j) e
    where
      goes_before-asym : (a b : Option A) → goes_before f a b ≡ true → goes_before f b a ≡ false
      goes_before-asym (some a) (some b) e = w.asym a b e
      goes_before-asym none (some b) e = refl
      goes_before-asym (some a) none e = refl
      goes_before-asym none none e = refl

  before_trans :
      (h : Data A) (i j k : ℕ)
      → IsConsistent h
      → j < len h
      → before f h i j ≡ false
      → before f h j k ≡ false
      → before f h i k ≡ false
  unfolding len content
  before_trans h i j k v q d e =
      let (kj, ej) = get_elem?-some h.queue j q in
      let (b, bj, _) = lookup_at h kj j v ej in
      goes_before_trans (obj_at h i) (obj_at h j) (obj_at h k) b.obj (rw (ej, bj)) d e
    where
      goes_before_trans :
          (a b c : Option A) (y : A)
          → b ≡ some y
          → goes_before f a b ≡ false
          → goes_before f b c ≡ false
          → goes_before f a c ≡ false
      goes_before_trans (some a) (some b) (some c) y s d e = w.trans a b c d e
      goes_before_trans (some a) none (some c) y s d e = absurd (cc)
      goes_before_trans none b c y s d e = refl
      goes_before_trans (some a) b none y s d e = refl

  -- data is a lawful heap.Interface, which keeps the map that it stands for under Swap.
  pub interface-Lawful : Lawful (interface f) IsConsistent (before f) place content
  interface-Lawful = record {
    less_ok = less_ok f;
    swap_ok = swap_ok;
    asym = λ h i j v e. before-asym h i j e;
    trans = before_trans;
  }
