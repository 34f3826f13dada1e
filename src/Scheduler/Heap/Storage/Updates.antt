-- ===== src/Scheduler/Heap/Storage/Updates.antt =====
-- What the updates that container/heap makes between two sifts do to the order of the heap.
use cloud_prophet.Prelude.{
  ℕ, zero, suc, ◌+◌, ◌-◌, ◌<◌, ◌≡◌, refl, ap, ◌≢◌, String, Bool, true, false, Option, none, some,
  [], ◌∷◌, ◌++◌, arith, ltb, if◌then◌else◌, length, take, length-append, length-take,
  get_elem?-append, get_elem?-take, lt_of_get_elem?, string_eq, ◌===◌, ok, Returns, returns,
}
use cloud_prophet.Prelude.Map.{lookup, insert, delete, lookup-insert, lookup-delete}
use cloud_prophet.Scheduler.Heap.Container.{parent}
use cloud_prophet.Scheduler.Heap.Sift
use cloud_prophet.Scheduler.Heap.Sift.{exchange, Swapped}
use cloud_prophet.Scheduler.Heap.Storage.{HeapItem, Data, len, take_out, pop, interface}
use cloud_prophet.Scheduler.Heap.Storage.Laws.{
  IsConsistent, IsStrictWeak, content, place, obj_at, before, interface-Lawful, lookup_at,
}

module _ {A : Type 0} (f : A → A → Bool) (w : IsStrictWeak f) where
  abbrev laws : Sift.Lawful (interface f) IsConsistent (before f) place content
  laws = interface-Lawful f w

  abbrev pub IsOrdered : ℕ → Data A → Type 0
  IsOrdered = Sift.IsHeap (interface f) IsConsistent (before f) place content laws

  abbrev pub Sifted : ℕ → Data A → Data A → Type 0
  Sifted = Sift.Sifted (interface f) IsConsistent (before f) place content laws

  abbrev pub UpInv : ℕ → Data A → ℕ → Type 0
  UpInv = Sift.UpInv (interface f) IsConsistent (before f) place content laws

  abbrev pub FixInv : ℕ → Data A → ℕ → Type 0
  FixInv = Sift.FixInv (interface f) IsConsistent (before f) place content laws

  abbrev pub DownInv : ℕ → Data A → ℕ → Type 0
  DownInv = Sift.DownInv (interface f) IsConsistent (before f) place content laws

  root_least_below :
      (k : ℕ) (h : Data A) (i : ℕ)
      → IsConsistent h
      → IsOrdered (len h) h
      → i < k
      → i < len h
      → before f h i 0 ≡ false
  root_least_below zero h i v o p q = absurd (omega arith)
  root_least_below (suc k) h zero v o p q = ground (arith, laws.asym h 0 0 v)
  root_least_below (suc k) h (suc i) v o p q =
      laws.trans h (suc i) (parent (suc i)) 0 v (omega arith) (o (suc i) (omega arith) q)
        (root_least_below k h (parent (suc i)) v o (omega arith) (omega arith))

  -- No entry of a heap goes before the root.
  pub root_least :
      (h : Data A) (i : ℕ)
      → IsConsistent h
      → IsOrdered (len h) h
      → i < len h
      → before f h i 0 ≡ false
  root_least h i v o q = root_least_below (suc i) h i v o (omega arith) q

  module _ (h : Data A) (v : IsConsistent h) where
    module _ (key : String) (item : HeapItem A) (obj : A) (e : lookup key h.items ≡ some item) where
      -- h.data.items[key].obj = obj
      abbrev pub replaced : Data A
      replaced = record h { items = insert key (record item { obj = obj }) h.items }

      pub replaced-IsConsistent : IsConsistent replaced
      replaced-IsConsistent = record {
        indexed = λ k i p. ground (
          arith,
          lookup-insert key k (record item { obj = obj }) h.items,
          v.indexed k i p,
          e,
          string_eq.beq_iff key k,
        );
        queued = λ k i p. ground (
          arith,
          lookup-insert key k (record item { obj = obj }) h.items,
          v.queued k i,
          e,
          string_eq.beq_iff key k,
        );
      }

      pub content-replaced :
          (k : String) → content replaced k ≡ (if key === k then some obj else content h k)
      unfolding content
      content-replaced k = ground (arith, lookup-insert key k (record item { obj = obj }) h.items)

      obj_at-replaced : (c : ℕ) → c ≢ item.index → obj_at replaced c ≡ obj_at h c
      obj_at-replaced c ne = go (place h c) refl
        where
          go : (o : Option String) → place h c ≡ o → obj_at replaced c ≡ obj_at h c
          go none p = rw p
          go (some k) p =
              rw p (ground (arith, content-replaced k, v.indexed k c p, e, string_eq.beq_iff key k))

      pub replaced-FixInv : IsOrdered (len h) h → FixInv (len h) replaced item.index
      unfolding len
      replaced-FixInv o =
          let i = item.index in
          let inside = lt_of_get_elem? h.queue i key (v.queued key i (ground (arith, e))) in
          record {
            inside = inside;
            edges = λ c p q r s. rw (obj_at-replaced c r, obj_at-replaced (parent c) s) (o c p q);
            bridged = λ c p q r s.
                rw (obj_at-replaced c (omega arith), obj_at-replaced (parent i) (omega arith))
                  (laws.trans h c i (parent i) v (unfold len in inside) (rw r at (o c p q))
                    (o i s inside));
          }

    module _ (key : String) (obj : A) (fresh : lookup key h.items ≡ none) where
      abbrev pub pushed : Data A
      pushed = record {
        items = insert key (record { obj = obj; index = length h.queue }) h.items;
        queue = h.queue ++ key ∷ [];
      }

      pub len-pushed : len pushed ≡ len h + 1
      unfolding len
      len-pushed = length-append h.queue (key ∷ [])

      -- A place of the queue is below its length, and holds no new key.
      old_place : (k : String) (c : ℕ) → place h c ≡ some k → (c < length h.queue) × (key ≢ k)
      old_place k c p =
          (lt_of_get_elem? h.queue c k p, λ same. ground (arith, v.indexed k c p, fresh))

      pub pushed-IsConsistent : IsConsistent pushed
      pushed-IsConsistent = record {
        indexed = λ k i p. ground (
          arith,
          get_elem?-append h.queue key i,
          old_place k i,
          v.indexed k i,
          lookup-insert key k (record { obj = obj; index = length h.queue }) h.items,
          string_eq.beq_iff key k,
        );
        queued = λ k i p. ground (
          arith,
          get_elem?-append h.queue key i,
          old_place k i,
          v.queued k i,
          lookup-insert key k (record { obj = obj; index = length h.queue }) h.items,
          string_eq.beq_iff key k,
        );
      }

      pub content-pushed :
          (k : String) → content pushed k ≡ (if key === k then some obj else content h k)
      unfolding content
      content-pushed k =
          ground (arith, lookup-insert key k (record { obj = obj; index = length h.queue }) h.items)

      obj_at-pushed : (c : ℕ) → c < length h.queue → obj_at pushed c ≡ obj_at h c
      obj_at-pushed c p = go (place h c) refl
        where
          same : place pushed c ≡ place h c
          same = ground (arith, get_elem?-append h.queue key c)

          go : (o : Option String) → place h c ≡ o → obj_at pushed c ≡ obj_at h c
          go none e = rw (same, e)
          go (some k) e =
              rw (same, e)
                (ground (arith, content-pushed k, old_place k c e, string_eq.beq_iff key k))

      pub pushed-UpInv : IsOrdered (len h) h → UpInv (len pushed) pushed (len h)
      unfolding len
      pushed-UpInv o =
          let size : length pushed.queue ≡ length h.queue + 1 = len-pushed in
          record {
            inside = omega (arith, size);
            edges = λ c p q r.
                rw
                  (
                    obj_at-pushed c (omega (arith, size)),
                    obj_at-pushed (parent c) (omega (arith, size)),
                  )
                  (o c p (omega (arith, size)));
            bridged = λ c p q r s. absurd (omega (arith, size));
          }

    module _ (n : ℕ) (size : len h ≡ suc n) (o : IsOrdered (len h) h) where
      -- After Swap(0, n) only the edges at the root are out of order among the first n.
      pub root-DownInv :
          (t : Data A)
          → 0 < n
          → Swapped IsConsistent len (before f) place content h 0 n t
          → DownInv n t 0
      root-DownInv t pos s = record {
        fixing = record {
          inside = pos;
          edges = λ c p q r u. ground (arith, s.ordered c (parent c), o c p, size);
          bridged = λ c p q r u. absurd (omega arith);
        };
        above = λ p. absurd (omega arith);
      }

      -- After Swap(i, n) only the edges at `i` are.
      pub hole-FixInv :
          (t : Data A) (i : ℕ)
          → i < n
          → Swapped IsConsistent len (before f) place content h i n t
          → FixInv n t i
      hole-FixInv t i inside s = record {
        inside = inside;
        edges = λ c p q r u. ground (arith, s.ordered c (parent c), o c p, size);
        bridged = λ c p q r u. ground (
          arith,
          s.ordered c (parent i),
          o c p,
          o i u,
          size,
          laws.trans h c i (parent i) v (omega (arith, size)),
        );
      }

    -- What Pop of heap.Interface leaves when the first n entries are in order.
    pub record Popped (key : String) (obj : A) (n : ℕ) (t : Data A) : Type 0 where
      pub valid : IsConsistent t
      pub ordered : IsOrdered n t
      pub sized : len t ≡ n
      pub present : content h key ≡ some obj
      pub removed : (k : String) → content t k ≡ (if key === k then none else content h k)

    module _ (n : ℕ) (size : len h ≡ suc n) (o : IsOrdered n h) (key : String)
        (e : place h n ≡ some key) (item : HeapItem A) (i : lookup key h.items ≡ some item) where
      abbrev popped : Data A
      popped = record { items = delete key h.items; queue = take n h.queue }

      taken : take_out h key ≡ (some item.obj, popped)
      unfolding take_out len
      taken = ground (arith, size, i)

      pop-popped : pop h ≡ ok (some item.obj, popped)
      unfolding pop len
      pop-popped =
          let some_left : ltb 0 (length h.queue) ≡ true = ground (arith, size) in
          let last : length h.queue - 1 ≡ n = omega (arith, size) in
          rw (some_left, last, e) (ap ok taken)

      popped-IsConsistent : IsConsistent popped
      unfolding len
      popped-IsConsistent = record {
        indexed = λ k c p. ground (
          arith,
          get_elem?-take n h.queue c,
          v.indexed k c,
          v.indexed key n e,
          lookup-delete key k h.items,
          string_eq.beq_iff key k,
        );
        queued = λ k c p. ground (
          arith,
          get_elem?-take n h.queue c,
          v.queued k c,
          e,
          size,
          lt_of_get_elem? h.queue c k,
          lookup-delete key k h.items,
          string_eq.beq_iff key k,
        );
      }

      content-popped : (k : String) → content popped k ≡ (if key === k then none else content h k)
      unfolding content
      content-popped k = ground (arith, lookup-delete key k h.items)

      obj_at-popped : (c : ℕ) → c < n → obj_at popped c ≡ obj_at h c
      obj_at-popped c p = go (place h c) refl
        where
          same : place popped c ≡ place h c
          same = ground (arith, get_elem?-take n h.queue c)

          go : (o : Option String) → place h c ≡ o → obj_at popped c ≡ obj_at h c
          go none q = rw (same, q)
          go (some k) q =
              rw (same, q)
                (ground (
                  arith,
                  content-popped k,
                  v.indexed k c q,
                  v.indexed key n e,
                  string_eq.beq_iff key k,
                ))

      popped-Popped : Popped key item.obj n popped
      unfolding len content
      popped-Popped = record {
        valid = popped-IsConsistent;
        ordered = λ c p q. rw (obj_at-popped c q, obj_at-popped (parent c) (omega arith)) (o c p q);
        sized = length-take n h.queue (omega (arith, size));
        present = rw i;
        removed = unfold content in content-popped;
      }

    pub pop-Popped :
        (n : ℕ) (key : String)
        → len h ≡ suc n
        → IsOrdered n h
        → place h n ≡ some key
        → Returns (λ (r, t). (obj : A) × (r ≡ some obj) × Popped key obj n t) (pop h)
    pop-Popped n key size o e =
        let (item, i, _) = lookup_at h key n v e in
        rw (pop-popped n size o key e item i)
          (returns (item.obj, refl, popped-Popped n size o key e item i))
