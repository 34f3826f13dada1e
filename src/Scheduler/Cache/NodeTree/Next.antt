-- ===== src/Scheduler/Cache/NodeTree/Next.antt =====
-- next of the node tree: what one call returns.
use cloud_prophet.Prelude.{
  ℕ, zero, suc, ◌+◌, ◌<◌, ◌≤◌, ◌≡◌, refl, sym, ◌∙◌, ap, String, Bool, true, false, none, some, List,
  [], ◌∷◌, arith, leb, if◌then◌else◌, length, get_elem?, lt_of_get_elem?, string_eq, ◌===◌,
  Option-cases, inl, inr, Returns, returns,
}
use cloud_prophet.Prelude.Int.{pos}
use cloud_prophet.Prelude.Map.{lookup, insert, lookup-insert}
use cloud_prophet.Scheduler.Cache.NodeTree.{NodeArray, NodeTree, next_in, visit}
use cloud_prophet.Scheduler.Cache.NodeTree.Sums.{sum_by, sum_by-insert_old}
use cloud_prophet.Scheduler.Cache.NodeTree.Count.{count, count-drop, drop, length-drop}
use cloud_prophet.Scheduler.Cache.NodeTree.Invariant.{
  IsValid, size, names, listed, listed-insert, change-IsValid,
}

-- The nodes of an array that its round has not reached.
abbrev pub left : NodeArray → ℕ
left na = length (drop na.last_index na.nodes)

abbrev pub left_count : String → NodeArray → ℕ
left_count n na = count n (drop na.last_index na.nodes)

-- The index of the zone that next visits first.
abbrev pub start : NodeTree → ℕ
start t = if leb (length t.zones) t.zone_index then 0 else t.zone_index

-- One pass of the loop.
pub record Visited (t : NodeTree) (zone : String) (na : NodeArray) (t' : NodeTree) (name : String)
    (exhausted : Bool) : Type 0 where
  pub valid : IsValid t'
  pub same_zones : t'.zones ≡ t.zones
  pub moved : t'.zone_index ≡ start t + 1
  pub lists : (z n : String) → listed t' z n ≡ listed t z n
  pub num : t'.num_nodes ≡ t.num_nodes
  pub over : exhausted ≡ true → left na ≡ 0
  pub same_tree : exhausted ≡ true → (z : String) → lookup z t'.tree ≡ lookup z t.tree
  pub same_sum : exhausted ≡ true → (f : NodeArray → ℕ) → sum_by f t'.tree ≡ sum_by f t.tree
  pub less_left :
      exhausted ≡ false
      → (n : String)
      → sum_by (left_count n) t.tree ≡ (if name === n then 1 else 0) + sum_by (left_count n) t'.tree
  pub one_fewer : exhausted ≡ false → sum_by left t.tree ≡ 1 + sum_by left t'.tree

List-pos :
    (xs : List String) → 0 < length xs → (x : String) × (rest : List String) × (xs ≡ x ∷ rest)
List-pos [] p = absurd (omega arith)
List-pos (x ∷ xs) p = (x, xs, refl)

none-le : (xs : List String) (i : ℕ) → get_elem? xs i ≡ none → length xs ≤ i
none-le [] i e = omega arith
none-le (x ∷ xs) zero e = absurd (cc)
none-le (x ∷ xs) (suc i) e = omega (arith, none-le xs i e)

abbrev array : List String → ℕ → NodeArray
array xs i = record { nodes = xs; last_index = i }

next_in-over :
    (xs : List String) (i : ℕ)
    → 0 < length xs
    → get_elem? xs i ≡ none
    → next_in (array xs i) ≡ ("", true, array xs i)
unfolding next_in
next_in-over [] i p e = absurd (omega arith)
next_in-over (m ∷ ms) i p e = rw e

next_in-serves :
    (xs : List String) (i : ℕ) (name : String)
    → 0 < length xs
    → get_elem? xs i ≡ some name
    → next_in (array xs i) ≡ (name, false, array xs (i + 1))
unfolding next_in
next_in-serves [] i name p e = absurd (omega arith)
next_in-serves (m ∷ ms) i name p e = rw e

pub visit-Visited :
    (t : NodeTree) (zone : String) (na : NodeArray)
    → IsValid t
    → get_elem? t.zones (start t) ≡ some zone
    → lookup zone t.tree ≡ some na
    → Returns (λ (t', name, exhausted). Visited t zone na t' name exhausted) (visit t)
unfolding visit
visit-Visited t zone na v at there = elim (Option-cases (get_elem? na.nodes na.last_index)) [
  | inl none_left ↦
      rw (at, there, next_in-over na.nodes na.last_index (v.filled zone na there) none_left)
        (returns (record {
          valid = written na (v.filled zone na there) refl;
          same_zones = refl;
          moved = refl;
          lists = relisted na refl;
          num = refl;
          over = λ _.
              omega (
                arith,
                length-drop na.last_index na.nodes,
                none-le na.nodes na.last_index none_left,
              );
          same_tree = λ _. kept;
          same_sum = λ _ f. omega (arith, sum_by-insert_old f zone na na t.tree there);
          less_left = λ f. absurd (cc);
          one_fewer = λ f. absurd (cc);
        }))
  | inr (name, e) ↦
      let b : NodeArray = record na { last_index = na.last_index + 1 } in
      let next_index : na.last_index + 1 ≡ suc na.last_index = omega arith in
      let short : (n : String) → left_count n na ≡ (if name === n then 1 else 0) + left_count n b =
        λ n. rw next_index (count-drop n name na.nodes na.last_index e) in
      let shorter : left na ≡ 1 + left b = omega (
        arith,
        length-drop na.last_index na.nodes,
        length-drop (na.last_index + 1) na.nodes,
        lt_of_get_elem? na.nodes na.last_index name e,
      ) in
      rw (at, there, next_in-serves na.nodes na.last_index name (v.filled zone na there) e)
        (returns (record {
          valid = written b (v.filled zone na there) refl;
          same_zones = refl;
          moved = refl;
          lists = relisted b refl;
          num = refl;
          over = λ f. absurd (cc);
          same_tree = λ f. absurd (cc);
          same_sum = λ f. absurd (cc);
          less_left = λ _ n.
              omega (arith, sum_by-insert_old (left_count n) zone na b t.tree there, short n);
          one_fewer = λ _. omega (arith, sum_by-insert_old left zone na b t.tree there, shorter);
        }))
]
  where
    kept : (z : String) → lookup z (insert zone na t.tree) ≡ lookup z t.tree
    kept z = ground (arith, lookup-insert zone z na t.tree, there, string_eq.beq_iff zone z)

    relisted :
        (b : NodeArray)
        → b.nodes ≡ na.nodes
        → (z n : String) → count n (names (lookup z (insert zone b t.tree))) ≡ listed t z n
    relisted b same z n =
        ground (arith, listed-insert zone z n b t.tree, same, there, string_eq.beq_iff zone z)

    written :
        (b : NodeArray)
        → 0 < size b
        → b.nodes ≡ na.nodes
        → IsValid (record t { tree = insert zone b t.tree; zone_index = start t + 1 })
    written b p same =
        let here : (n : String) → listed t zone n ≡ count n na.nodes = λ n. rw there in
        change-IsValid t zone na b (start t + 1) t.num_nodes v there p
          (λ n. rw same (omega (arith, here n, v.single zone n)))
          (v.counted
            ∙ ap pos (
                sym (omega (arith, sum_by-insert_old size zone na b t.tree there, ap length same))))
