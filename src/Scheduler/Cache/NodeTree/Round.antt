-- ===== src/Scheduler/Cache/NodeTree/Round.antt =====
-- The loop of next, and a round of calls of next.
use cloud_prophet.Prelude.{
  ℕ, zero, suc, ◌+◌, ◌-◌, ◌<◌, ◌≡◌, refl, sym, ◌∙◌, String, true, false, some, List, [], ◌∷◌, arith,
  ltb, leb, if◌then◌else◌, length, get_elem?, get_elem?-some, lt_of_get_elem?, string_eq, ◌===◌,
  Option-cases, Bool-cases, inl, inr, ok, Returns, returns, Returns-bind, Returns-map,
}
use cloud_prophet.Prelude.Map.{lookup}
use cloud_prophet.Scheduler.Cache.NodeTree.{NodeArray, NodeTree, next_loop, next, reset_exhausted}
use cloud_prophet.Scheduler.Cache.NodeTree.Sums.{sum_by, sum_by_pos}
use cloud_prophet.Scheduler.Cache.NodeTree.Count.{count-get_elem?, index_of}
use cloud_prophet.Scheduler.Cache.NodeTree.Invariant.{IsValid, listed}
use cloud_prophet.Scheduler.Cache.NodeTree.Next.{left, left_count, start, Visited, visit-Visited}

-- A call of next that returned a node of the round: it is the one that the round has left less.
pub record Served (t t' : NodeTree) (name : String) : Type 0 where
  pub valid : IsValid t'
  pub same_zones : t'.zones ≡ t.zones
  pub lists : (z n : String) → listed t' z n ≡ listed t z n
  pub one_fewer : sum_by left t.tree ≡ 1 + sum_by left t'.tree
  pub less_left :
      (n : String)
      → sum_by (left_count n) t.tree ≡ (if name === n then 1 else 0) + sum_by (left_count n) t'.tree

-- The index of the zone that next visits after `d` others.
abbrev place : NodeTree → ℕ → ℕ
place t d = if ltb (start t + d) (length t.zones) then start t + d else start t + d - length t.zones

-- A zone of a valid tree has its array.
pub zone_array :
    (t : NodeTree) (i : ℕ) (zone : String)
    → IsValid t
    → get_elem? t.zones i ≡ some zone
    → (na : NodeArray) × (lookup zone t.tree ≡ some na)
zone_array t i zone v e = elim (Option-cases (lookup zone t.tree)) [
  | inl nothing ↦ absurd (ground (arith, v.zoned zone, count-get_elem? zone t.zones i e, nothing))
  | inr found ↦ found
]

pub start_lt : (t : NodeTree) → 0 < length t.zones → start t < length t.zones
start_lt t p = ground arith

pub serve :
    {t t' : NodeTree} {z name : String} {a : NodeArray}
    → Visited t z a t' name false
    → Served t t' name
serve w = record {
  valid = w.valid;
  same_zones = w.same_zones;
  lists = w.lists;
  one_fewer = w.one_fewer refl;
  less_left = w.less_left refl;
}

-- A call that passed an exhausted zone first.
pub pass :
    {t t' t'' : NodeTree} {z name name' : String} {a : NodeArray}
    → Visited t z a t' name true
    → Served t' t'' name'
    → Served t t'' name'
pass w s = record {
  valid = s.valid;
  same_zones = s.same_zones ∙ w.same_zones;
  lists = λ z n. s.lists z n ∙ w.lists z n;
  one_fewer = sym (w.same_sum refl left) ∙ s.one_fewer;
  less_left = λ n. sym (w.same_sum refl (left_count n)) ∙ s.less_left n;
}

place-zero : (t : NodeTree) → 0 < length t.zones → place t 0 ≡ start t
place-zero t p = ground arith

place-suc :
    (t t' : NodeTree) (d : ℕ)
    → t'.zones ≡ t.zones
    → t'.zone_index ≡ start t + 1
    → suc d < length t.zones
    → place t' d ≡ place t (suc d)
place-suc t t' d same moved p = rw (same, moved) (ground arith)

-- The zone that is next has nodes left.
pub at_once :
    (k seen : ℕ) (t : NodeTree) (zone : String) (na : NodeArray)
    → IsValid t
    → get_elem? t.zones (start t) ≡ some zone
    → lookup zone t.tree ≡ some na
    → 0 < left na
    → Returns (λ (t', name). Served t t' name) (next_loop (suc k) seen t)
unfolding next_loop
at_once k seen t zone na v here there some_left =
    Returns-bind (visit-Visited t zone na v here there) λ (t', name, exhausted) w.
      elim exhausted
          as (λ x.
            Visited t zone na t' name x
            → Returns (λ (t', name). Served t t' name)
                (if x
                  then next_loop k (seen + 1)
                      (if leb (length t'.zones) (seen + 1) then reset_exhausted t' else t')
                  else ok (t', name))) [
                    | false ↦ λ w. returns (serve w)
                    | true ↦ λ w. absurd (omega (arith, w.over refl, some_left))
                  ]
        w

-- The loop comes to the zone at distance `d`, if it has nodes left, before it has seen as many
-- exhausted zones as there are.
pub finds :
    (k d seen : ℕ) (t : NodeTree) (zone : String) (na : NodeArray)
    → IsValid t
    → d < k
    → seen + d < length t.zones
    → get_elem? t.zones (place t d) ≡ some zone
    → lookup zone t.tree ≡ some na
    → 0 < left na
    → Returns (λ (t', name). Served t t' name) (next_loop k seen t)
unfolding next_loop
finds zero d seen t zone na v p q at there some_left = absurd (omega arith)
finds (suc k) zero seen t zone na v p q at there some_left =
    at_once k seen t zone na v (rw (place-zero t (omega arith)) at at) there some_left
finds (suc k) (suc d) seen t zone na v p q at there some_left =
    let (z, here) = get_elem?-some t.zones (start t) (start_lt t (omega arith)) in
    let (a, has) = zone_array t (start t) z v here in
    Returns-bind (visit-Visited t z a v here has) λ (t', name, exhausted) w.
      elim exhausted
          as (λ x.
            Visited t z a t' name x
            → Returns (λ (t', name). Served t t' name)
                (if x
                  then next_loop k (seen + 1)
                      (if leb (length t'.zones) (seen + 1) then reset_exhausted t' else t')
                  else ok (t', name))) [
                    | false ↦ λ w. returns (serve w)
                    | true ↦ λ w.
                        let same = w.same_zones in
                        let early : leb (length t'.zones) (seen + 1) ≡ false =
                          rw same (ground arith) in
                        let place_same = place-suc t t' d same w.moved (omega arith) in
                        rw early (
                          Returns-map
                            (finds k d (seen + 1) t' zone na w.valid (omega arith)
                              (rw same (omega arith)) (rw (place_same, same) at)
                              (w.same_tree refl zone ∙ there) some_left)
                            λ (t'', name') s. pass w s)
                  ]
        w

-- The distance from the first zone to an index.
distance :
    (t : NodeTree) (i : ℕ) → i < length t.zones → (d : ℕ) × (d < length t.zones) × (place t d ≡ i)
distance t i p = elim (Bool-cases (leb (start t) i)) [
  | inl after ↦ (i - start t, omega arith, ground (arith, after))
  | inr before ↦
      let s = start_lt t (omega arith) in
      (i + length t.zones - start t, ground (arith, before, s), ground (arith, before, s, p))
]

some_zones :
    {R : Type 0} (xs : List String) (a b : R)
    → 0 < length xs
    → elim xs as (λ _. R) [ [] ↦ a | z ∷ zs ↦ b ] ≡ b
some_zones [] a b p = absurd (omega arith)
some_zones (x ∷ xs) a b p = refl

pub next_loop_of :
    (t : NodeTree) → 0 < length t.zones → next t ≡ next_loop (suc (length t.zones)) 0 t
unfolding next
next_loop_of t p = some_zones t.zones _ _ p

-- While a node of the round is left, next returns one of those that are left, and takes exactly that
-- one off the rest of the round.
pub next-Served :
    (t : NodeTree)
    → IsValid t
    → 0 < sum_by left t.tree
    → Returns (λ (t', name). Served t t' name) (next t)
next-Served t v p =
    let (zone, na, there, some_left) = sum_by_pos left v.distinct p in
    let (i, at) = index_of zone t.zones (ground (arith, v.zoned zone, there)) in
    let (d, q, same) = distance t i (lt_of_get_elem? t.zones i zone at) in
    rw (next_loop_of t (omega (arith, q))) (
      finds (suc (length t.zones)) d 0 t zone na v (omega arith) (omega arith) (rw same at) there
        some_left)
