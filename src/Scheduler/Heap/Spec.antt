-- ===== src/Scheduler/Heap/Spec.antt =====
-- The contract of Heap (scheduler/internal/heap/heap.go): a map from keys to objects whose Pop takes
-- an object that no other goes before. No call on a valid heap panics.
use cloud_prophet.Prelude.{
  ℕ, zero, suc, ◌+◌, ◌-◌, ◌≤◌, ◌<◌, ◌≡◌, refl, sym, ap, ◌∙◌, String, Bool, false, Option, none,
  some, arith, ◌==◌, if◌then◌else◌, length, get_elem?-some, lt_of_get_elem?, string_eq, ◌===◌, ok,
  Returns, returns, Returns-bind, Returns-map, Returns-if, Result, value, error, Option-cases, inl,
  inr, lt→ltb,
}
use cloud_prophet.Prelude.Int.{ℤ, pos, ◌+ℤ◌, ◌-ℤ◌}
use cloud_prophet.Prelude.Map.{lookup}
use cloud_prophet.Scheduler.Heap.Container
use cloud_prophet.Scheduler.Heap.Container.{parent, settle, up}
use cloud_prophet.Scheduler.Heap.Sift
use cloud_prophet.Scheduler.Heap.Sift.{Swapped-Kept}
use cloud_prophet.Scheduler.Heap.Storage
use cloud_prophet.Scheduler.Heap.Storage.{HeapItem, Data, interface}
use cloud_prophet.Scheduler.Heap.Storage.Laws.{
  IsConsistent, IsStrictWeak, content, place, before, interface-Lawful, lookup_at,
}
use cloud_prophet.Scheduler.Heap.Storage.Updates
use cloud_prophet.Scheduler.Heap.Storage.Updates.{
  Popped, Sifted, pushed, replaced-IsConsistent, replaced-FixInv, content-replaced,
  pushed-IsConsistent, pushed-UpInv, len-pushed, content-pushed, root-DownInv, hole-FixInv,
  pop-Popped, root_least,
}
use cloud_prophet.Scheduler.Heap.{
  Heap, HeapError, MetricRecorder, key_error, object_not_found, inc, dec, add, new_with_recorder,
  push_new, replace, add_if_not_present, delete, pop, get, get_by_key, peek, len,
}

module _ {A : Type 0} where
  -- GetByKey reads the map that the heap stands for.
  pub get_by_key-content : (h : Heap A) (k : String) → get_by_key h k ≡ content (h.store) k
  unfolding get_by_key content
  get_by_key-content h k = ground arith

pub inc_gauge :
    (m : MetricRecorder) {a b : ℕ}
    → ((n : ℤ) → m ≡ some n → n ≡ pos a)
    → b ≡ a + 1
    → (n : ℤ) → inc m ≡ some n
    → n ≡ pos b
unfolding ◌+ℤ◌
inc_gauge none g e n q = cc
inc_gauge (some c) g e n q = ground (arith, g c refl)

pub dec_gauge :
    (m : MetricRecorder) {a b : ℕ}
    → ((n : ℤ) → m ≡ some n → n ≡ pos a)
    → a ≡ b + 1
    → (n : ℤ) → dec m ≡ some n
    → n ≡ pos b
unfolding ◌-ℤ◌
dec_gauge none g e n q = cc
dec_gauge (some c) g e n q = ground (arith, g c refl)

module _ {A : Type 0} (key_func : A → Result String String) (f : A → A → Bool) where
  -- The queue and the map agree, the queue is in heap order, every object stands under its own
  -- key, and the gauge of the recorder is the length.
  pub record IsValid (h : Heap A) : Type 0 where
    pub consistent : IsConsistent h.store
    pub ordered : (c : ℕ) → 0 < c → c < Storage.len h.store → before f h.store c (parent c) ≡ false
    pub keyed : (k : String) (o : A) → content h.store k ≡ some o → key_func o ≡ value k
    pub gauged : (n : ℤ) → h.metric_recorder ≡ some n → n ≡ pos (Storage.len h.store)

  pub record Removed (h : Heap A) (key : String) (o : A) (h' : Heap A) : Type 0 where
    pub valid : IsValid h'
    pub shorter : len h ≡ len h' + 1
    pub present : get_by_key h key ≡ some o
    pub rest : (k : String) → get_by_key h' k ≡ (if key === k then none else get_by_key h k)

  pub record Added (h : Heap A) (key : String) (o : A) (h' : Heap A) : Type 0 where
    pub valid : IsValid h'
    pub stored : (k : String) → get_by_key h' k ≡ (if key === k then some o else get_by_key h k)

  keyed-stored :
      (h : Heap A) (key : String) (o : A) (c : String → Option A)
      → IsValid h
      → key_func o ≡ value key
      → ((k : String) → c k ≡ (if key === k then some o else content h.store k))
      → (k : String) (p : A) → c k ≡ some p
      → key_func p ≡ value k
  keyed-stored h key o c v e stored k p q =
      ground (arith, stored k, v.keyed k p, string_eq.beq_iff key k)

  module _ (w : IsStrictWeak f) where
    replace-Added :
        (h : Heap A) (key : String) (item : HeapItem A) (o : A)
        → IsValid h
        → key_func o ≡ value key
        → lookup key h.store.items ≡ some item
        → Returns (Added h key o) (replace key_func f h key item o)
    unfolding replace Container.fix Storage.len
    replace-Added h key item o v e i =
        let s = h.store in
        let stored = content-replaced f w s v.consistent key item o i in
        Returns-bind
          (Sift.settle_restores (interface f) IsConsistent (before f) place content
            (interface-Lawful f w) _ _ item.index
            (replaced-IsConsistent f w s v.consistent key item o i) (omega arith)
            (replaced-FixInv f w s v.consistent key item o i v.ordered))
          λ d z.
            let held : (k : String) → content d k ≡ (if key === k then some o else content s k) =
              λ k. ap (λ c. c k) z.0.viewed ∙ stored k in
            returns (record {
              valid = record {
                consistent = z.0.valid;
                ordered = rw (z.0.sized) z.1;
                keyed = keyed-stored h key o (content d) v e held;
                gauged = λ n g. v.gauged n g ∙ ap pos (sym z.0.sized);
              };
              stored = λ k. rw (get_by_key-content, get_by_key-content) (held k);
            })

    push_new-Added :
        (h : Heap A) (key : String) (o : A)
        → IsValid h
        → key_func o ≡ value key
        → lookup key h.store.items ≡ none
        → Returns (Added h key o) (push_new key_func f h key o)
    unfolding push_new Container.push Container.up Storage.push
    push_new-Added h key o v e fresh =
        let s = h.store in
        let stored = content-pushed f w s v.consistent key o fresh in
        let size = len-pushed f w s v.consistent key o fresh in
        let last : Storage.len (pushed f w s v.consistent key o fresh) - 1 ≡ Storage.len s =
          omega (arith, size) in
        rw last (
          Returns-bind
            (Sift.up_loop_restores (interface f) IsConsistent (before f) place content
              (interface-Lawful f w) (suc (Storage.len s)) _ _ (Storage.len s) (omega arith)
              (pushed-IsConsistent f w s v.consistent key o fresh) (omega arith)
              (pushed-UpInv f w s v.consistent key o fresh v.ordered))
            λ d z.
              let held : (k : String) → content d k ≡ (if key === k then some o else content s k) =
                λ k. ap (λ c. c k) z.0.viewed ∙ stored k in
              returns (record {
                valid = record {
                  consistent = z.0.valid;
                  ordered = rw (z.0.sized) z.1;
                  keyed = keyed-stored h key o (content d) v e held;
                  gauged = inc_gauge h.metric_recorder v.gauged (z.0.sized ∙ size);
                };
                stored = λ k. rw (get_by_key-content, get_by_key-content) (held k);
              }))

    -- Add puts the object under its key, in place of the one that was there, and keeps the heap valid.
    pub add-Added :
        (h : Heap A) (o : A) (key : String)
        → IsValid h
        → key_func o ≡ value key
        → Returns (λ (h', e). (e ≡ none) × Added h key o h') (add key_func f h o)
    unfolding add
    add-Added h o key v e = elim (Option-cases (lookup key h.store.items)) [
      | inl absent ↦
          rw (e, add, absent)
            (Returns-bind (push_new-Added h key o v e absent) λ h' z. returns (refl, z))
      | inr (item, found) ↦
          rw (e, add, found)
            (Returns-bind (replace-Added h key item o v e found) λ h' z. returns (refl, z))
    ]

    -- AddIfNotPresent does so for a new key, and changes nothing for one that is there.
    pub add_if_not_present_lem :
        (h : Heap A) (o : A) (key : String)
        → IsValid h
        → key_func o ≡ value key
        → Returns
            (λ (h', e).
              (e ≡ none)
              × IsValid h'
              × ((get_by_key h key ≡ none) → Added h key o h')
              × ((p : A) → get_by_key h key ≡ some p → h' ≡ h))
            (add_if_not_present key_func f h o)
    unfolding add_if_not_present get_by_key
    add_if_not_present_lem h o key v e = elim (Option-cases (lookup key h.store.items)) [
      | inl absent ↦
          rw (e, add_if_not_present, absent)
            (Returns-bind (push_new-Added h key o v e absent)
              λ h' z. returns (refl, z.valid, (λ _. z), λ p q. cc))
      | inr (item, found) ↦
          rw (e, add_if_not_present, found) (returns (refl, v, (λ n. cc), λ p q. refl))
    ]

    -- The last steps of Pop and Remove: drop the entry that was brought to the end.
    Popped-Removed :
        (h : Heap A) (u t : Data A) (b : IsConsistent u) (n : ℕ) (key : String) (o : A)
        → IsValid h
        → Storage.len h.store ≡ suc n
        → content u ≡ content h.store
        → Popped f w u b key o n t
        → Removed h key o (record { store = t; metric_recorder = dec h.metric_recorder })
    unfolding len
    Popped-Removed h u t b n key o v size same z =
        let gone : (k : String) → content t k ≡ (if key === k then none else content h.store k) =
          λ k. ground (arith, z.removed k, ap (λ c. c k) same) in
        record {
          valid = record {
            consistent = z.valid;
            ordered = rw (z.sized) z.ordered;
            keyed = λ k p q. ground (arith, gone k, v.keyed k p);
            gauged = dec_gauge h.metric_recorder v.gauged (omega (arith, z.sized));
          };
          shorter = omega (arith, z.sized);
          present = get_by_key-content h key ∙ ap (λ c. c key) (sym same) ∙ z.present;
          rest = λ k. rw (get_by_key-content, get_by_key-content) (gone k);
        }

    -- What container/heap's Pop and Remove return: the object of one key, and the other entries.
    record Dropped (s : Data A) (n : ℕ) (key : String) (r : Option A × Data A) : Type 0 where
      obj : A
      mid : Data A
      valid : IsConsistent mid
      returned : r.0 ≡ some obj
      same : content mid ≡ content s
      popped : Popped f w mid valid key obj n r.1

    drop_last :
        (s u : Data A) (n : ℕ) (key : String) (b : IsConsistent u)
        → Storage.len u ≡ suc n
        → content u ≡ content s
        → Updates.IsOrdered f w n u
        → place u n ≡ some key
        → Returns (Dropped s n key) (Storage.pop u)
    drop_last s u n key b size same o at =
        Returns-map (pop-Popped f w u b n key size o at) λ (r, t) (obj, q, x). record {
          obj = obj;
          mid = u;
          valid = b;
          returned = q;
          same = same;
          popped = x;
        }

    sift_root :
        (t : Data A) (n : ℕ)
        → IsConsistent t
        → n ≤ Storage.len t
        → (0 < n → Updates.DownInv f w n t 0)
        → Returns (λ (u, _). Sifted f w n t u) (Container.down (interface f) t 0 n)
    unfolding Container.down Container.down_loop Container.down_step
    sift_root t zero c b d = returns (
      Sift.Kept-refl (interface f) IsConsistent (before f) place content (interface-Lawful f w) c,
      λ e p q. absurd (omega arith),
    )
    sift_root t (suc n) c b d =
        Sift.down_restores (interface f) IsConsistent (before f) place content
          (interface-Lawful f w) (suc n) t 0 c b (d (omega arith))

    root_key :
        (h : Heap A) (n : ℕ)
        → Storage.len h.store ≡ suc n
        → (key : String) × (place h.store 0 ≡ some key)
    unfolding Storage.len
    root_key h n size = get_elem?-some h.store.queue 0 (omega arith)

    -- An object at the root goes before no other.
    root-first :
        (h : Heap A) (key k : String) (o p : A)
        → IsValid h
        → place h.store 0 ≡ some key
        → content h.store key ≡ some o
        → content h.store k ≡ some p
        → f p o ≡ false
    unfolding content Storage.len
    root-first h key k o p v e c d =
        let (item, i) = found (lookup k h.store.items) refl in
        let at = v.consistent.queued k item.index (ground (arith, i)) in
        let inside = lt_of_get_elem? h.store.queue item.index k at in
        let least = root_least f w h.store item.index v.consistent v.ordered inside in
        ground (arith, least, at, e, i, c, d)
      where
        found :
            (r : Option (HeapItem A))
            → lookup k h.store.items ≡ r
            → (item : HeapItem A) × (lookup k h.store.items ≡ some item)
        found none q = absurd (ground (arith, d))
        found (some item) q = (item, q)

    abbrev pub Pops : Heap A → Heap A × Result (HeapError A) A → Type 0
    Pops h (h', r) =
        (o : A) × (key : String) × (r ≡ value o)
        × Removed h key o h'
        × ((k : String) (p : A) → get_by_key h k ≡ some p → f p o ≡ false)

    pop-Dropped :
        (h : Heap A) (n : ℕ) (key : String)
        → IsValid h
        → Storage.len h.store ≡ suc n
        → place h.store 0 ≡ some key
        → Returns (Dropped h.store n key) (Container.pop (interface f) h.store)
    unfolding Container.pop
    pop-Dropped h n key v size e =
        let s = h.store in
        let last : Storage.len s - 1 ≡ n = omega arith in
        rw last (
          Returns-bind
            ((interface-Lawful f w).swap_ok s 0 n v.consistent (omega arith) (omega arith))
            λ t y.
              Returns-bind
                (sift_root t n y.valid (omega (arith, y.sized))
                  λ p. root-DownInv f w s v.consistent n size v.ordered t p y)
                λ (u, _) z.
                  let at : place u n ≡ some key =
                    z.0.placed n (omega arith) ∙ y.placed n ∙ ground (arith, e) in
                  drop_last s u n key z.0.valid (z.0.sized ∙ y.sized ∙ size) (z.0.viewed ∙ y.viewed)
                    z.1 at)

    pop_steps :
        (h : Heap A) (n : ℕ)
        → IsValid h
        → Storage.len h.store ≡ suc n
        → Returns (Pops h) (pop key_func f h)
    unfolding pop
    pop_steps h n v size =
        let (key, e) = root_key h n size in
        Returns-bind (pop-Dropped h n key v size e) λ (r, t) d.
          let gone = Popped-Removed h d.mid t d.valid n key d.obj v size d.same d.popped in
          rw (d.returned) (
            returns (
              d.obj,
              key,
              refl,
              gone,
              λ k p c.
                  root-first h key k d.obj p v e (sym (get_by_key-content h key) ∙ gone.present)
                    (sym (get_by_key-content h k) ∙ c),
            ))

    -- Pop on a heap that is not empty takes out one object, one that no other goes before, and keeps
    -- the rest.
    pub pop-Pops : (h : Heap A) → IsValid h → 0 < len h → Returns (Pops h) (pop key_func f h)
    unfolding len
    pop-Pops h v p = pop_steps h (Storage.len h.store - 1) v (omega arith)

    remove-Dropped :
        (h : Heap A) (n i : ℕ) (key : String)
        → IsValid h
        → Storage.len h.store ≡ suc n
        → place h.store i ≡ some key
        → Returns (Dropped h.store n key) (Container.remove (interface f) h.store i)
    unfolding Container.remove Storage.len
    remove-Dropped h n i key v size e =
        let s = h.store in
        let inside = lt_of_get_elem? s.queue i key e in
        let last : length s.queue - 1 ≡ n = omega (arith, size) in
        rw last (
          Returns-if (n == i)
            (λ same.
              let at : place s n ≡ some key = ground (arith, e) in
              drop_last s s n key v.consistent size refl
                (λ c p q. v.ordered c p (omega (arith, size))) at)
            λ other.
              let below : i < n = ground (arith, size, inside) in
              Returns-bind
                ((interface-Lawful f w).swap_ok s i n v.consistent inside (omega (arith, size)))
                λ t y.
                  Returns-bind
                    (Sift.settle_restores (interface f) IsConsistent (before f) place content
                      (interface-Lawful f w) n t i y.valid (omega (arith, y.sized, size))
                      (hole-FixInv f w s v.consistent n size v.ordered t i below y))
                    λ u z.
                      let at : place u n ≡ some key =
                        z.0.placed n (omega arith) ∙ y.placed n ∙ ground (arith, e) in
                      drop_last s u n key z.0.valid (z.0.sized ∙ y.sized ∙ size)
                        (z.0.viewed ∙ y.viewed) z.1 at)

    delete_steps :
        (h : Heap A) (n : ℕ) (o : A) (key : String) (item : HeapItem A)
        → IsValid h
        → key_func o ≡ value key
        → lookup key h.store.items ≡ some item
        → Storage.len h.store ≡ suc n
        → Returns (λ (h', e). (e ≡ none) × Removed h key item.obj h') (delete key_func f h o)
    unfolding delete content
    delete_steps h n o key item v e found size =
        let at = v.consistent.queued key item.index (ground (arith, found)) in
        rw (e, delete, found)
          (Returns-bind (remove-Dropped h n item.index key v size at) λ (r, t) d.
            let gone = Popped-Removed h d.mid t d.valid n key d.obj v size d.same d.popped in
            let same : d.obj ≡ item.obj =
              ground (arith, gone.present, get_by_key-content h key, found) in
            returns (refl, rw same at gone))

    -- Delete takes out the object under the key, wherever it stands in the queue, and keeps the rest.
    pub delete-Removed :
        (h : Heap A) (o p : A) (key : String)
        → IsValid h
        → key_func o ≡ value key
        → get_by_key h key ≡ some p
        → Returns (λ (h', e). (e ≡ none) × Removed h key p h') (delete key_func f h o)
    unfolding get_by_key Storage.len
    delete-Removed h o p key v e found = go (lookup key h.store.items) refl
      where
        go :
            (r : Option (HeapItem A))
            → lookup key h.store.items ≡ r
            → Returns (λ (h', e). (e ≡ none) × Removed h key p h') (delete key_func f h o)
        go none q = absurd (ground (arith, q))
        go (some item) q =
            let at = v.consistent.queued key item.index (ground (arith, q)) in
            let inside = lt_of_get_elem? h.store.queue item.index key at in
            let same : item.obj ≡ p = ground (arith, q) in
            rw same at
              (delete_steps h (length h.store.queue - 1) o key item v e q (omega (arith, inside)))

    abbrev pub Peeks : Heap A → Option A → Type 0
    Peeks h r =
        (o : A) × (key : String) × (r ≡ some o)
        × (get_by_key h key ≡ some o)
        × ((k : String) (p : A) → get_by_key h k ≡ some p → f p o ≡ false)

    -- Peek shows what Pop may take: an object that no other goes before.
    pub peek-Peeks : (h : Heap A) → IsValid h → 0 < len h → Returns (Peeks h) (peek h)
    unfolding peek Storage.peek len Storage.len content
    peek-Peeks h v p =
        let (key, e) = root_key h (length h.store.queue - 1) (omega arith) in
        let (item, i, _) = lookup_at h.store key 0 v.consistent e in
        let some_left = lt→ltb 0 (length h.store.queue) p in
        let held : get_by_key h key ≡ some item.obj =
          get_by_key-content h key ∙ ground (arith, i) in
        rw (some_left, e)
          (rw i (
            returns (
              item.obj,
              key,
              refl,
              held,
              λ k q c.
                  root-first h key k item.obj q v e (ground (arith, i))
                    (sym (get_by_key-content h k) ∙ c),
            )))

    -- Peek on an empty heap returns nil.
    pub peek-empty : (h : Heap A) → len h ≡ 0 → peek h ≡ ok none
    unfolding peek Storage.peek len Storage.len
    peek-empty h e = ground (arith, e)

  -- Delete of a key that is not there is an error and changes nothing.
  pub delete-not_found :
      (h : Heap A) (o : A) (key : String)
      → key_func o ≡ value key
      → get_by_key h key ≡ none
      → delete key_func f h o ≡ ok (h, some object_not_found)
  unfolding delete get_by_key
  delete-not_found h o key e absent =
      let gone : lookup key h.store.items ≡ none = ground arith in rw (e, delete, gone)

  -- A key function that fails makes Add, AddIfNotPresent and Delete fail with its error, with the
  -- heap unchanged.
  pub key_error_lem :
      (h : Heap A) (o : A) (e : String)
      → key_func o ≡ error e
      → (add key_func f h o ≡ ok (h, some (key_error o e)))
        × (add_if_not_present key_func f h o ≡ ok (h, some (key_error o e)))
        × (delete key_func f h o ≡ ok (h, some (key_error o e)))
  unfolding add add_if_not_present delete
  key_error_lem h o e q = (rw (q, add), rw (q, add_if_not_present), rw (q, delete))

  -- A new heap is valid, with a recorder at 0 or with none.
  pub new_with_recorder-IsValid :
      (m : MetricRecorder) → ((n : ℤ) → m ≡ some n → n ≡ pos 0) → IsValid (new_with_recorder m)
  unfolding new_with_recorder Storage.len content lookup
  new_with_recorder-IsValid m g = record {
    consistent = record { indexed = λ k i p. cc; queued = λ k i p. cc };
    ordered = λ c p q. refl;
    keyed = λ k o p. cc;
    gauged = g;
  }

module _ {A : Type 0} (key_func : A → Result String String) (f : A → A → Bool)
    (w : IsStrictWeak f) where
  -- The object under the key is gone after Delete, whether or not it was there.
  pub delete_any :
      (h : Heap A) (o : A) (key : String)
      → IsValid key_func f h
      → key_func o ≡ value key
      → Returns
          (λ (h', _).
            IsValid key_func f h'
            × ((k : String) → get_by_key h' k ≡ (if key === k then none else get_by_key h k)))
          (delete key_func f h o)
  delete_any h o key v e = elim (Option-cases (get_by_key h key)) [
    | inl absent ↦
        rw (delete-not_found key_func f h o key e absent)
          (returns (v, λ k. ground (arith, absent, string_eq.beq_iff key k)))
    | inr (p, there) ↦
        Returns-map (delete-Removed key_func f w h o p key v e there)
          λ (h', _) z. (z.1.valid, z.1.rest)
  ]

  -- Get looks under the key of the object.
  pub get-value :
      (h : Heap A) (o : A) (key : String)
      → key_func o ≡ value key
      → get key_func f h o ≡ value (get_by_key h key)
  unfolding get
  get-value h o key e = rw (e, get)

-- Every object stands under its own key.
pub key_of_stored :
    {A : Type 0} (key_func : A → Result String String) (f : A → A → Bool) (h : Heap A) (k : String)
    (o : A)
    → IsValid key_func f h
    → get_by_key h k ≡ some o
    → key_func o ≡ value k
key_of_stored key_func f h k o v e = v.keyed k o (sym (get_by_key-content h k) ∙ e)
