-- ===== src/Scheduler/Cache/NodeTree/Restart.antt =====
-- The reset of the rounds, and a whole round of calls of next.
use cloud_prophet.Prelude.{
  ℕ, zero, suc, ◌+◌, ◌<◌, ◌≤◌, ◌≡◌, refl, subst, sym, ◌∙◌, ap, String, true, false, Option, none,
  some, List, [], ◌∷◌, map, arith, leb, if◌then◌else◌, length, get_elem?-some, string_eq, ◌===◌,
  Option-cases, Bool-cases, inl, inr, ok, Returns, returns, Returns-bind, Returns-map,
}
use cloud_prophet.Prelude.Int.{pos}
use cloud_prophet.Prelude.Map.{lookup, IsUnique, unique_nil, unique_cons}
use cloud_prophet.Scheduler.Cache.NodeTree.{
  NodeArray, NodeTree, next_loop, next, next_names, reset_exhausted, reset_array,
}
use cloud_prophet.Scheduler.Cache.NodeTree.Sums.{sum_by}
use cloud_prophet.Scheduler.Cache.NodeTree.Count.{count, count-nil, count-cons, count-length, drop}
use cloud_prophet.Scheduler.Cache.NodeTree.Invariant.{IsValid, is_there, names, size, listed}
use cloud_prophet.Scheduler.Cache.NodeTree.Next.{left, left_count, start, Visited, visit-Visited}
use cloud_prophet.Scheduler.Cache.NodeTree.Round.{
  Served, next-Served, next_loop_of, start_lt, zone_array, at_once,
}

abbrev rewound : NodeArray → NodeArray
rewound na = record na { last_index = 0 }

abbrev rewound? : Option NodeArray → Option NodeArray
rewound? none = none
rewound? (some na) = some (rewound na)

lookup-reset :
    (z : String) (m : List (String × NodeArray))
    → lookup z (map reset_array m) ≡ rewound? (lookup z m)
unfolding lookup reset_array
lookup-reset z [] = refl
lookup-reset z ((y, a) ∷ m) = elim (Bool-cases (y === z)) [
  | inl here ↦ rw here
  | inr there ↦ rw there (lookup-reset z m)
]

sum_by-reset :
    (f g : NodeArray → ℕ) (m : List (String × NodeArray))
    → ((a : NodeArray) → f (rewound a) ≡ g a)
    → sum_by f (map reset_array m) ≡ sum_by g m
unfolding sum_by reset_array
sum_by-reset f g [] h = refl
sum_by-reset f g ((y, a) ∷ m) h = omega (arith, h a, sum_by-reset f g m h)

IsUnique-reset : {m : List (String × NodeArray)} → IsUnique m → IsUnique (map reset_array m)
unfolding reset_array
IsUnique-reset unique_nil = unique_nil
IsUnique-reset (unique_cons {k = k} {m = m} n u) =
    unique_cons (lookup-reset k m ∙ rw n) (IsUnique-reset u)

names-reset : (o : Option NodeArray) → names (rewound? o) ≡ names o
names-reset none = refl
names-reset (some a) = refl

is_there-reset : (o : Option NodeArray) → is_there (rewound? o) ≡ is_there o
is_there-reset none = refl
is_there-reset (some a) = refl

listed-reset : (t : NodeTree) (z n : String) → listed (reset_exhausted t) z n ≡ listed t z n
unfolding reset_exhausted
listed-reset t z n =
    ap (λ o. count n (names o)) (lookup-reset z t.tree)
    ∙ ap (count n) (names-reset (lookup z t.tree))

-- resetExhausted keeps the tree valid and leaves all its nodes to the next round.
pub reset_exhausted-IsValid : (t : NodeTree) → IsValid t → IsValid (reset_exhausted t)
unfolding reset_exhausted
reset_exhausted-IsValid t v = record {
  distinct = IsUnique-reset v.distinct;
  zoned =
      λ z. v.zoned z ∙ sym (ap is_there (lookup-reset z t.tree) ∙ is_there-reset (lookup z t.tree));
  filled = λ z a e. elim (Option-cases (lookup z t.tree)) [
    | inl nothing ↦ absurd (ground (arith, lookup-reset z t.tree, nothing, e))
    | inr (b, there) ↦
        let same : rewound b ≡ a = ground (arith, lookup-reset z t.tree, there, e) in
        rw (sym (ap size same)) (v.filled z b there)
  ];
  single = λ z n. subst (λ x. x ≤ 1) (sym (listed-reset t z n)) (v.single z n);
  counted = v.counted ∙ ap pos (sym (sum_by-reset size size t.tree λ a. refl));
}

left-reset : (t : NodeTree) → sum_by left (reset_exhausted t).tree ≡ sum_by size t.tree
unfolding reset_exhausted
left-reset t = sum_by-reset left size t.tree λ a. refl

left_count-reset :
    (t : NodeTree) (n : String)
    → sum_by (left_count n) (reset_exhausted t).tree ≡ sum_by (λ a. count n a.nodes) t.tree
unfolding reset_exhausted
left_count-reset t n = sum_by-reset (left_count n) (λ a. count n a.nodes) t.tree λ a. refl

-- A tree with the nodes of `t`, at the start of a round.
pub record Resumes (t r : NodeTree) : Type 0 where
  pub zones : r.zones ≡ t.zones
  pub lists : (z n : String) → listed r z n ≡ listed t z n
  pub all_left : sum_by left r.tree ≡ sum_by size t.tree
  pub each_left : (n : String) → sum_by (left_count n) r.tree ≡ sum_by (λ a. count n a.nodes) t.tree

-- Where `k` nodes of the round are left, `k` calls of next return them, each as often as it is left.
pub next_names-rest :
    (k : ℕ) (t : NodeTree)
    → IsValid t
    → sum_by left t.tree ≡ k
    → Returns
        (λ (t', ns).
          IsValid t'
          × (sum_by left t'.tree ≡ 0)
          × ((n : String)
              → count n ns + sum_by (left_count n) t'.tree ≡ sum_by (left_count n) t.tree))
        (next_names k t)
unfolding next_names
next_names-rest zero t v e = returns (v, e, λ n. rw count-nil (omega arith))
next_names-rest (suc k) t v e = Returns-bind (next-Served t v (omega (arith, e))) λ (t', name) s.
    Returns-bind (next_names-rest k t' s.valid (omega (arith, s.one_fewer, e)))
      λ (t'', ns) (w, done, all).
        returns (w, done, λ n. omega (arith, count-cons n name ns, all n, s.less_left n))

left_count_le :
    (n : String) (m : List (String × NodeArray)) → sum_by (left_count n) m ≤ sum_by left m
unfolding sum_by
left_count_le n [] = omega arith
left_count_le n ((y, a) ∷ m) =
    omega (arith, left_count_le n m, count-length n (drop a.last_index a.nodes))

-- After a reset, as many calls of next as the tree has nodes return each node of each zone once, and
-- leave none to the round.
pub next_names-All :
    (k : ℕ) (t : NodeTree)
    → IsValid t
    → t.num_nodes ≡ pos k
    → Returns
        (λ (t', ns).
          IsValid t' × ((n : String) → count n ns ≡ sum_by (λ a. count n a.nodes) t.tree))
        (next_names k (reset_exhausted t))
next_names-All k t v e =
    let full : sum_by size t.tree ≡ k = pos_inj (sym v.counted ∙ e) in
    Returns-map
      (next_names-rest k (reset_exhausted t) (reset_exhausted-IsValid t v) (left-reset t ∙ full))
      λ (t', ns) (w, done, all).
        (w, λ n. omega (arith, all n, left_count-reset t n, left_count_le n t'.tree, done))
  where
    pos_inj : {a b : ℕ} → pos a ≡ pos b → a ≡ b
    pos_inj h = cc

reset-left :
    (t : NodeTree) (zone : String) (na : NodeArray)
    → IsValid t
    → lookup zone (reset_exhausted t).tree ≡ some na
    → 0 < left na
unfolding reset_exhausted
reset-left t zone na v e = elim (Option-cases (lookup zone t.tree)) [
  | inl nothing ↦ absurd (ground (arith, lookup-reset zone t.tree, nothing, e))
  | inr (b, there) ↦
      let same : rewound b ≡ na = ground (arith, lookup-reset zone t.tree, there, e) in
      rw (sym (ap left same)) (v.filled zone b there)
]

reset-serves :
    (k seen : ℕ) (t : NodeTree)
    → IsValid t
    → 0 < length t.zones
    → Returns
        (λ (t', name). Served (reset_exhausted t) t' name)
        (next_loop (suc k) seen (reset_exhausted t))
reset-serves k seen t v p =
    let r = reset_exhausted t in
    let u = reset_exhausted-IsValid t v in
    let q : 0 < length r.zones = unfold reset_exhausted in p in
    let (zone, here) = get_elem?-some r.zones (start r) (start_lt r q) in
    let (na, there) = zone_array r (start r) zone u here in
    at_once k seen r zone na u here there (reset-left t zone na v there)

Resumes-reset :
    {t t' : NodeTree} {z name : String} {a : NodeArray}
    → Visited t z a t' name true
    → Resumes t (reset_exhausted t')
Resumes-reset {t' = t'} w = record {
  zones = unfold reset_exhausted in w.same_zones;
  lists = λ z n. listed-reset t' z n ∙ w.lists z n;
  all_left = left-reset t' ∙ w.same_sum refl size;
  each_left = λ n. left_count-reset t' n ∙ w.same_sum refl (λ a. count n a.nodes);
}

Resumes-passed :
    {t t' r : NodeTree} {z name : String} {a : NodeArray}
    → Visited t z a t' name true
    → Resumes t' r
    → Resumes t r
Resumes-passed w s = record {
  zones = s.zones ∙ w.same_zones;
  lists = λ z n. s.lists z n ∙ w.lists z n;
  all_left = s.all_left ∙ w.same_sum refl size;
  each_left = λ n. s.each_left n ∙ w.same_sum refl (λ a. count n a.nodes);
}

-- Where no node of the round is left, the loop passes every zone, resets, and returns the first node
-- of a new round.
drains :
    (j seen : ℕ) (t : NodeTree)
    → IsValid t
    → seen + suc j ≡ length t.zones
    → sum_by left t.tree ≡ 0
    → Returns
        (λ (t', name). (r : NodeTree) × Resumes t r × Served r t' name)
        (next_loop (suc (suc j)) seen t)
unfolding next_loop
drains zero seen t v e done =
    let (z, here) = get_elem?-some t.zones (start t) (start_lt t (omega arith)) in
    let (a, has) = zone_array t (start t) z v here in
    Returns-bind (visit-Visited t z a v here has) λ (t', name, exhausted) w.
      elim exhausted
          as (λ x.
            Visited t z a t' name x
            → Returns (λ (t', name). (r : NodeTree) × Resumes t r × Served r t' name)
                (if x
                  then next_loop (suc zero) (seen + 1)
                      (if leb (length t'.zones) (seen + 1) then reset_exhausted t' else t')
                  else ok (t', name))) [
                    | false ↦ λ w. absurd (omega (arith, w.one_fewer refl, done))
                    | true ↦ λ w.
                        let same = w.same_zones in
                        let last : leb (length t'.zones) (seen + 1) ≡ true =
                          rw same (ground (arith, e)) in
                        rw last (
                          Returns-map
                            (reset-serves zero (seen + 1) t' w.valid (rw same (omega (arith, e))))
                            λ (t'', name') s. (reset_exhausted t', Resumes-reset w, s))
                  ]
        w
drains (suc j) seen t v e done =
    let (z, here) = get_elem?-some t.zones (start t) (start_lt t (omega arith)) in
    let (a, has) = zone_array t (start t) z v here in
    Returns-bind (visit-Visited t z a v here has) λ (t', name, exhausted) w.
      elim exhausted
          as (λ x.
            Visited t z a t' name x
            → Returns (λ (t', name). (r : NodeTree) × Resumes t r × Served r t' name)
                (if x
                  then next_loop (suc (suc j)) (seen + 1)
                      (if leb (length t'.zones) (seen + 1) then reset_exhausted t' else t')
                  else ok (t', name))) [
                    | false ↦ λ w. absurd (omega (arith, w.one_fewer refl, done))
                    | true ↦ λ w.
                        let same = w.same_zones in
                        let early : leb (length t'.zones) (seen + 1) ≡ false =
                          rw same (ground (arith, e)) in
                        rw early (
                          Returns-map
                            (drains j (seen + 1) t' w.valid (rw same (omega (arith, e)))
                              (w.same_sum refl left ∙ done))
                            λ (t'', name') (r, s, x). (r, Resumes-passed w s, x))
                  ]
        w

-- Where no node of the round is left, next starts a new round: all nodes of the tree are left, and it
-- returns one of them.
pub next-Resumes :
    (t : NodeTree)
    → IsValid t
    → 0 < length t.zones
    → sum_by left t.tree ≡ 0
    → Returns (λ (t', name). (r : NodeTree) × Resumes t r × Served r t' name) (next t)
next-Resumes t v p done =
    let (j, same) = pred_of (length t.zones) p in
    rw (next_loop_of t p, same) (drains j 0 t v (omega (arith, same)) done)
  where
    pred_of : (n : ℕ) → 0 < n → (j : ℕ) × (n ≡ suc j)
    pred_of zero q = absurd (omega arith)
    pred_of (suc j) q = (j, refl)
