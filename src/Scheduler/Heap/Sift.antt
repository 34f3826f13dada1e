-- ===== src/Scheduler/Heap/Sift.antt =====
-- The sift loops of container/heap over any lawful heap.Interface.
use cloud_prophet.Prelude.{
  ℕ, zero, suc, ◌+◌, ◌*◌, ◌≤◌, ◌<◌, ◌≡◌, refl, ◌∙◌, ◌≢◌, ◌⊎◌, inl, inr, Bool, true, false, Option,
  none, some, arith, ltb, ◌==◌, if◌then◌else◌, ok, Returns, Returns-inv, returns, Returns-bind,
  Returns-map, Returns-if, Bool-cases, lt→ltb,
}
use cloud_prophet.Scheduler.Heap.Container.{
  Interface, parent, up_loop, up, smaller_child, down_step, down_loop, down, settle,
}

-- What stands at `c` after entries `i` and `j` change places.
abbrev pub exchange : ℕ → ℕ → ℕ → ℕ
exchange i j c = if c == i then j else if c == j then i else c

-- `place s c` names the entry at index `c`, `view s` is what no swap changes.
pub record Swapped {S K V : Type 0} (Valid : S → Type 0) (size : S → ℕ) (lt : S → ℕ → ℕ → Bool)
    (place : S → ℕ → K) (view : S → V) (s : S) (i j : ℕ) (t : S) : Type 0 where
  pub valid : Valid t
  pub sized : size t ≡ size s
  pub viewed : view t ≡ view s
  pub placed : (c : ℕ) → place t c ≡ place s (exchange i j c)
  pub ordered : (c d : ℕ) → lt t c d ≡ lt s (exchange i j c) (exchange i j d)

-- The contract of heap.Interface: in range, Less and Swap return, and Less is a strict weak order.
pub record Lawful {S X Y K V : Type 0} (h : Interface S X Y) (Valid : S → Type 0)
    (lt : S → ℕ → ℕ → Bool) (place : S → ℕ → K) (view : S → V) : Type 0 where
  pub less_ok :
      (s : S) (i j : ℕ) → Valid s → i < h.len s → j < h.len s → h.less s i j ≡ ok (lt s i j)
  pub swap_ok :
      (s : S) (i j : ℕ)
      → Valid s
      → i < h.len s
      → j < h.len s
      → Returns (Swapped Valid h.len lt place view s i j) (h.swap s i j)
  pub asym : (s : S) (i j : ℕ) → Valid s → lt s i j ≡ true → lt s j i ≡ false
  pub trans :
      (s : S) (i j k : ℕ)
      → Valid s
      → j < h.len s
      → lt s i j ≡ false
      → lt s j k ≡ false
      → lt s i k ≡ false

module _ {S X Y K V : Type 0} (h : Interface S X Y) (Valid : S → Type 0) (lt : S → ℕ → ℕ → Bool)
    (place : S → ℕ → K) (view : S → V) (laws : Lawful h Valid lt place view) where
  -- No entry among the first `n` goes before its parent.
  abbrev pub IsHeap : ℕ → S → Type 0
  IsHeap n s = (c : ℕ) → 0 < c → c < n → lt s c (parent c) ≡ false

  abbrev pub IsBridged : ℕ → S → ℕ → Type 0
  IsBridged n s i = (c : ℕ) → 0 < c → c < n → parent c ≡ i → 0 < i → lt s c (parent i) ≡ false

  -- Only the edge above `i` may be out of order.
  pub record UpInv (n : ℕ) (s : S) (i : ℕ) : Type 0 where
    pub inside : i < n
    pub edges : (c : ℕ) → 0 < c → c < n → c ≢ i → lt s c (parent c) ≡ false
    pub bridged : IsBridged n s i

  -- Only the edges at `i` may be out of order.
  pub record FixInv (n : ℕ) (s : S) (i : ℕ) : Type 0 where
    pub inside : i < n
    pub edges : (c : ℕ) → 0 < c → c < n → c ≢ i → parent c ≢ i → lt s c (parent c) ≡ false
    pub bridged : IsBridged n s i

  -- Only the edges below `i` may be out of order.
  pub record DownInv (n : ℕ) (s : S) (i : ℕ) : Type 0 where
    pub fixing : FixInv n s i
    pub above : 0 < i → lt s i (parent i) ≡ false

  -- The state has the entries of `s`, those from `n` on in their places.
  pub record Kept (n : ℕ) (s t : S) : Type 0 where
    pub valid : Valid t
    pub sized : h.len t ≡ h.len s
    pub viewed : view t ≡ view s
    pub placed : (c : ℕ) → n ≤ c → place t c ≡ place s c

  abbrev pub Sifted : ℕ → S → S → Type 0
  Sifted n s t = Kept n s t × IsHeap n t

  pub Kept-refl : {n : ℕ} {s : S} → Valid s → Kept n s s
  Kept-refl v = record { valid = v; sized = refl; viewed = refl; placed = λ c b. refl }

  pub Kept-trans : {n : ℕ} {s t u : S} → Kept n s t → Kept n t u → Kept n s u
  Kept-trans k l = record {
    valid = l.valid;
    sized = l.sized ∙ k.sized;
    viewed = l.viewed ∙ k.viewed;
    placed = λ c b. l.placed c b ∙ k.placed c b;
  }

  pub Swapped-Kept :
      {n i j : ℕ} {s t : S} → i < n → j < n → Swapped Valid h.len lt place view s i j t → Kept n s t
  Swapped-Kept p q w = record {
    valid = w.valid;
    sized = w.sized;
    viewed = w.viewed;
    placed = λ c b. ground (arith, w.placed c);
  }

  irrefl : (s : S) (i : ℕ) → Valid s → lt s i i ≡ false
  irrefl s i v = ground (arith, laws.asym s i i v)

  swap-UpInv :
      (n : ℕ) (s t : S) (i : ℕ)
      → Valid s
      → n ≤ h.len s
      → UpInv n s i
      → 0 < i
      → lt s i (parent i) ≡ true
      → Swapped Valid h.len lt place view s (parent i) i t
      → UpInv n t (parent i)
  swap-UpInv n s t i v b u p less w =
      let p' = parent i in
      let back = laws.asym s i p' v less in
      record {
        inside = omega (arith, u.inside);
        edges = λ c q r ne. ground (
          arith,
          w.ordered c (parent c),
          u.edges c q r,
          u.bridged c q r,
          back,
          u.inside,
          laws.trans s c p' i v (omega (arith, u.inside)),
        );
        bridged = λ c q r e pos. ground (
          arith,
          w.ordered c (parent p'),
          u.edges c q r,
          u.edges p',
          u.inside,
          laws.trans s c p' (parent p') v (omega (arith, u.inside)),
        );
      }

  -- up restores the order if only the edge above its start is out of order.
  pub up_loop_restores :
      (k n : ℕ) (s : S) (i : ℕ)
      → i < k
      → Valid s
      → n ≤ h.len s
      → UpInv n s i
      → Returns (Sifted n s) (up_loop h k s i)
  unfolding up_loop
  up_loop_restores zero n s i f v b u = absurd (omega arith)
  up_loop_restores (suc k) n s i f v b u =
      Returns-if (parent i == i)
        (λ root. returns (Kept-refl v, λ c p q. ground (arith, u.edges c p q)))
        λ low.
          rw (laws.less_ok s i (parent i) v (omega (arith, u.inside)) (omega (arith, u.inside))) (
            Returns-if (lt s i (parent i))
              (λ less.
                Returns-bind
                  (laws.swap_ok s (parent i) i v (omega (arith, u.inside))
                    (omega (arith, u.inside)))
                  λ t w.
                    Returns-map
                      (up_loop_restores k n t (parent i) (ground arith) w.valid
                        (omega (arith, w.sized)) (swap-UpInv n s t i v b u (ground arith) less w))
                      λ r z.
                        (Kept-trans (Swapped-Kept (omega (arith, u.inside)) u.inside w) z.0, z.1))
              λ settled. returns (Kept-refl v, λ c p q. ground (arith, u.edges c p q)))

  -- `m` is the child of `i` that goes before the other.
  record IsSmallerChild (n : ℕ) (s : S) (i m : ℕ) : Type 0 where
    inside : m < n
    child : parent m ≡ i
    above : i < m
    least : (c : ℕ) → 0 < c → c < n → parent c ≡ i → lt s c m ≡ false

  smaller_child-IsSmallerChild :
      (n : ℕ) (s : S) (i : ℕ)
      → Valid s
      → n ≤ h.len s
      → 2 * i + 1 < n
      → Returns (IsSmallerChild n s i) (smaller_child h s i n)
  unfolding smaller_child
  smaller_child-IsSmallerChild n s i v b p =
      Returns-if (ltb (2 * i + 1 + 1) n)
        (λ two.
          let q : 2 * i + 1 + 1 < n = ground arith in
          rw (laws.less_ok s (2 * i + 1 + 1) (2 * i + 1) v (omega arith) (omega arith))
            (elim (Bool-cases (lt s (2 * i + 1 + 1) (2 * i + 1))) [
              | inl less ↦ rw less (
                  returns (record {
                    inside = q;
                    child = omega arith;
                    above = omega arith;
                    least = λ c r t e.
                        pick c (2 * i + 1 + 1) (omega arith) (laws.asym s _ _ v less)
                          (irrefl s (2 * i + 1 + 1) v);
                  }))
              | inr more ↦ rw more (
                  returns (record {
                    inside = p;
                    child = omega arith;
                    above = omega arith;
                    least =
                        λ c r t e. pick c (2 * i + 1) (omega arith) (irrefl s (2 * i + 1) v) more;
                  }))
            ]))
        λ one. returns (record {
          inside = p;
          child = omega arith;
          above = omega arith;
          least = λ c r t e.
              let same : c ≡ 2 * i + 1 = ground arith in rw same (irrefl s (2 * i + 1) v);
        })
    where
      pick :
          (c m : ℕ)
          → (c ≡ 2 * i + 1) ⊎ (c ≡ 2 * i + 1 + 1)
          → lt s (2 * i + 1) m ≡ false
          → lt s (2 * i + 1 + 1) m ≡ false
          → lt s c m ≡ false
      pick c m (inl e) a b' = rw e a
      pick c m (inr e) a b' = rw e b'

  -- What one round of down reaches: the end, with only the edge above `i` in doubt, or a swap.
  abbrev pub Stepped : ℕ → S → ℕ → Option (S × ℕ) → Type 0
  Stepped n s i none = UpInv n s i
  Stepped n s i (some (t, m)) = (i < m) × (m < n) × Kept n s t × DownInv n t m

  module _ (n : ℕ) (s : S) (i : ℕ) (v : Valid s) (b : n ≤ h.len s) (f : FixInv n s i) where
    stop-UpInv : ((c : ℕ) → 0 < c → c < n → parent c ≡ i → lt s c i ≡ false) → UpInv n s i
    stop-UpInv children = record {
      inside = f.inside;
      edges = λ c p q ne. ground (arith, f.edges c p q, children c p q);
      bridged = f.bridged;
    }

    swap-DownInv :
        (m : ℕ) (t : S)
        → IsSmallerChild n s i m
        → lt s m i ≡ true
        → Swapped Valid h.len lt place view s i m t
        → DownInv n t m
    swap-DownInv m t c less w =
        let back = laws.asym s m i v less in
        record {
          fixing = record {
            inside = c.inside;
            edges = λ d p q ne nd. ground (
              arith,
              w.ordered d (parent d),
              f.edges d p q,
              f.bridged m,
              c.least d p q,
              c.above,
              c.child,
              c.inside,
            );
            bridged = λ d p q e pos.
                ground (arith, w.ordered d (parent m), f.edges d p q, c.above, c.child);
          };
          above = λ pos. ground (arith, w.ordered m (parent m), c.above, c.child);
        }

    down_step-Stepped : Returns (Stepped n s i) (down_step h s i n)
    unfolding down_step
    down_step-Stepped =
        Returns-if (ltb (2 * i + 1) n)
          (λ inner. Returns-bind (smaller_child-IsSmallerChild n s i v b (ground arith)) λ m c.
            rw (laws.less_ok s m i v (omega (arith, c.inside)) (omega (arith, f.inside))) (
              Returns-if (lt s m i)
                (λ less.
                  Returns-bind
                    (laws.swap_ok s i m v (omega (arith, f.inside)) (omega (arith, c.inside)))
                    λ t w. returns (
                      c.above,
                      c.inside,
                      Swapped-Kept f.inside c.inside w,
                      swap-DownInv m t c less w,
                    ))
                λ settled. returns (
                  stop-UpInv λ d p q e.
                    laws.trans s d m i v (omega (arith, c.inside)) (c.least d p q e) settled)))
          λ leaf. returns (stop-UpInv λ d p q e. absurd (ground arith))

  UpInv-IsHeap :
      (n : ℕ) (s : S) (i : ℕ) → UpInv n s i → (0 < i → lt s i (parent i) ≡ false) → IsHeap n s
  UpInv-IsHeap n s i u above = λ c p q. ground (arith, u.edges c p q, above)

  DownInv-keep : (n : ℕ) (s : S) (i : ℕ) → DownInv n s i → UpInv n s i → IsHeap n s
  DownInv-keep n s i d u = UpInv-IsHeap n s i u d.above

  pub down_loop_restores :
      (k n : ℕ) (s : S) (i : ℕ)
      → n < i + k
      → Valid s
      → n ≤ h.len s
      → DownInv n s i
      → Returns (λ (t, j). Sifted n s t × (i ≤ j)) (down_loop h k s i n)
  unfolding down_loop
  down_loop_restores zero n s i f v b d = absurd (omega (arith, d.fixing.inside))
  down_loop_restores (suc k) n s i f v b d =
      Returns-bind (down_step-Stepped n s i v b d.fixing) (elim [
        | none ↦ λ u. returns ((Kept-refl v, DownInv-keep n s i d u), omega arith)
        | some (t, m) ↦ λ (p, q, kept, d').
            Returns-map
              (down_loop_restores k n t m (omega arith) kept.valid (omega (arith, kept.sized)) d')
              λ (r, j) z. ((Kept-trans kept z.0.0, z.0.1), omega (arith, z.1))
      ])

  pub down_restores :
      (n : ℕ) (s : S) (i : ℕ)
      → Valid s
      → n ≤ h.len s
      → DownInv n s i
      → Returns (λ (t, moved). Sifted n s t) (down h s i n)
  unfolding down
  down_restores n s i v b d =
      Returns-bind (down_loop_restores (suc n) n s i (omega arith) v b d) λ (t, j) z. returns z.0

  down_loop-suc :
      (k n : ℕ) (s : S) (i : ℕ) (r : S × ℕ)
      → down_step h s i n ≡ ok (some r)
      → down_loop h (suc k) s i n ≡ down_loop h k r.0 r.1 n
  unfolding down_loop
  down_loop-suc k n s i r e = rw e

  settle_moved :
      (n : ℕ) (s : S) (i : ℕ) (r : S) (j : ℕ)
      → down_loop h (suc n) s i n ≡ ok (r, j)
      → i < j
      → settle h s i n ≡ ok r
  unfolding settle down
  settle_moved n s i r j e p = rw (e, lt→ltb i j p)

  settle_from :
      (n : ℕ) (s : S) (i : ℕ) (r : Option (S × ℕ))
      → Valid s
      → n ≤ h.len s
      → down_step h s i n ≡ ok r
      → Stepped n s i r
      → Returns (Sifted n s) (settle h s i n)
  unfolding settle down down_loop up
  settle_from n s i none v b e u =
      let same : ltb i i ≡ false = ground arith in
      rw (e, down_loop, same) (up_loop_restores (suc i) n s i (omega arith) v b u)
  settle_from n s i (some (t, m)) v b e (p, q, kept, d) =
      let ((r, j), fell, z) =
        Returns-inv
          (down_loop_restores n n t m (omega arith) kept.valid (omega (arith, kept.sized)) d) in
      rw (settle_moved n s i r j (down_loop-suc n n s i (t, m) e ∙ fell) (omega (arith, z.1)))
        (returns (Kept-trans kept z.0.0, z.0.1))

  -- if !down(i) { up(i) } restores the order when only the edges at `i` are out of order.
  pub settle_restores :
      (n : ℕ) (s : S) (i : ℕ)
      → Valid s
      → n ≤ h.len s
      → FixInv n s i
      → Returns (Sifted n s) (settle h s i n)
  settle_restores n s i v b f =
      let (r, e, stepped) = Returns-inv (down_step-Stepped n s i v b f) in
      settle_from n s i r v b e stepped
