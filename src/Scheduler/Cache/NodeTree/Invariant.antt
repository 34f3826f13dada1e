-- ===== src/Scheduler/Cache/NodeTree/Invariant.antt =====
-- The invariant of the node tree, and what addNode and removeNode do to it.
use cloud_prophet.Prelude.{
  ℕ, ◌+◌, ◌<◌, ◌≤◌, ◌≡◌, refl, sym, ◌∙◌, ap, String, true, Option, none, some, List, [], ◌∷◌, ◌++◌,
  arith, if◌then◌else◌, length, length-append, string_eq, ◌===◌, Option-cases, Bool-cases, inl, inr,
  ◌⊎◌,
}
use cloud_prophet.Prelude.Int.{ℤ, pos, ◌+ℤ◌, ◌-ℤ◌}
use cloud_prophet.Prelude.Map.{
  Map, lookup, insert, IsUnique, unique_nil, lookup-insert, lookup-delete, insert-IsUnique,
  delete-IsUnique,
}
use cloud_prophet.Prelude.Map
use cloud_prophet.Scheduler.Node.{Node}
use cloud_prophet.Scheduler.Cache.NodeTree.{
  NodeArray, NodeTree, node_not_found, has_node, remove_first, take_node, remove_zone, add_nodes,
  new_node_tree, add_node, remove_node,
}
use cloud_prophet.Scheduler.Cache.NodeTree.Sums.{
  sum_by, sum_by-insert_new, sum_by-insert_old, sum_by-delete,
}
use cloud_prophet.Scheduler.Cache.NodeTree.Count.{
  count, count-nil, count-append, count-has_node, has_node-count, count-remove_first,
  length-remove_first,
}

abbrev pub is_there : Option NodeArray → ℕ
is_there none = 0
is_there (some na) = 1

abbrev pub size : NodeArray → ℕ
size na = length na.nodes

abbrev pub names : Option NodeArray → List String
names none = []
names (some na) = na.nodes

-- How often a name stands in the array of a zone.
abbrev pub listed : NodeTree → String → String → ℕ
listed t z n = count n (names (lookup z t.tree))

-- Each zone of the tree is listed once in `zones`, no array is empty, no name stands twice in one,
-- and numNodes is the number of all names.
pub record IsValid (t : NodeTree) : Type 0 where
  pub distinct : IsUnique t.tree
  pub zoned : (z : String) → count z t.zones ≡ is_there (lookup z t.tree)
  pub filled : (z : String) (na : NodeArray) → lookup z t.tree ≡ some na → 0 < size na
  pub single : (z n : String) → listed t z n ≤ 1
  pub counted : t.num_nodes ≡ pos (sum_by size t.tree)

pos_add : (a b : ℕ) → pos a +ℤ pos b ≡ pos (a + b)
unfolding ◌+ℤ◌
pos_add a b = ground arith

-- The names of a zone after a write of an array.
pub listed-insert :
    (k z n : String) (b : NodeArray) (m : Map String NodeArray)
    → count n (names (lookup z (insert k b m)))
      ≡ (if k === z then count n b.nodes else count n (names (lookup z m)))
listed-insert k z n b m = rw (lookup-insert k z b m) (ground arith)

-- A write to the array of a zone that is there.
pub change-IsValid :
    (t : NodeTree) (k : String) (a b : NodeArray) (i : ℕ) (num : ℤ)
    → IsValid t
    → lookup k t.tree ≡ some a
    → 0 < size b
    → ((n : String) → count n b.nodes ≤ 1)
    → num ≡ pos (sum_by size (insert k b t.tree))
    → IsValid (record t { tree = insert k b t.tree; zone_index = i; num_nodes = num })
change-IsValid t k a b i num v old p once c = record {
  distinct = insert-IsUnique k b v.distinct;
  zoned = λ z. ground (arith, v.zoned z, lookup-insert k z b t.tree, string_eq.beq_iff k z, old);
  filled = λ z na e. ground (arith, lookup-insert k z b t.tree, v.filled z na, e, p);
  single = λ z n. ground (arith, listed-insert k z n b t.tree, once n, v.single z n);
  counted = c;
}

-- A zone that is not there, with its first node.
pub fresh-IsValid :
    (t : NodeTree) (k name : String)
    → IsValid t
    → lookup k t.tree ≡ none
    → IsValid (record t {
      tree = insert k (record { nodes = name ∷ []; last_index = 0 }) t.tree;
      zones = t.zones ++ k ∷ [];
      num_nodes = t.num_nodes +ℤ pos 1;
    })
fresh-IsValid t k name v new =
    let b : NodeArray = record { nodes = name ∷ []; last_index = 0 } in
    record {
      distinct = insert-IsUnique k b v.distinct;
      zoned = λ z. ground (
        arith,
        v.zoned z,
        lookup-insert k z b t.tree,
        count-append z k t.zones,
        string_eq.beq_iff k z,
        new,
      );
      filled = λ z na e. ground (arith, lookup-insert k z b t.tree, v.filled z na, e);
      single = λ z n.
          ground (
            arith,
            listed-insert k z n b t.tree,
            count-append n name [],
            count-nil n,
            v.single z n,
          );
      counted =
          ap (λ x. x +ℤ pos 1) v.counted
          ∙ pos_add (sum_by size t.tree) 1
          ∙ ap pos (sym (sum_by-insert_new size k b t.tree new));
    }

module _ (get_zone_key : Node → String) (t : NodeTree) (node : Node) (v : IsValid t) where
  abbrev zone : String
  zone = get_zone_key node

  -- The tree lists the name of the node `k` times in its zone, and all else as before.
  abbrev pub Lists : ℕ → NodeTree → Type 0
  Lists k t' =
      (z n : String)
      → listed t' z n
        ≡ (if zone === z then (if node.name === n then k else listed t z n) else listed t z n)

  -- addNode lists the node once in its zone, whether or not it was there, leaves all else as it was,
  -- and keeps the tree valid.
  pub add_node-Lists :
      IsValid (add_node get_zone_key t node) × Lists 1 (add_node get_zone_key t node)
  unfolding add_node
  add_node-Lists = elim (Option-cases (lookup zone t.tree)) [
    | inl new ↦
        rw (new, add_node)
          (
            fresh-IsValid t zone node.name v new,
            λ z n. ground (
              arith,
              listed-insert zone z n (record { nodes = node.name ∷ []; last_index = 0 }) t.tree,
              count-append n node.name [],
              count-nil n,
              new,
              string_eq.beq_iff zone z,
            ),
          )
    | inr (na, old) ↦
        let here : (n : String) → listed t zone n ≡ count n na.nodes = λ n. rw old in
        elim (Bool-cases (has_node node.name na.nodes)) [
          | inl there ↦
              rw (old, there, add_node)
                (
                  v,
                  λ z n. ground (
                    arith,
                    has_node-count node.name na.nodes there,
                    here node.name,
                    v.single zone node.name,
                    string_eq.beq_iff zone z,
                    string_eq.beq_iff node.name n,
                  ),
                )
          | inr absent ↦
              let b : NodeArray = record na { nodes = na.nodes ++ node.name ∷ [] } in
              let none_there = count-has_node node.name na.nodes absent in
              rw (old, absent, add_node)
                (
                  change-IsValid t zone na b t.zone_index (t.num_nodes +ℤ pos 1) v old
                      (omega (arith, length-append na.nodes (node.name ∷ [])))
                      (λ n. ground (
                        arith,
                        count-append n node.name na.nodes,
                        here n,
                        v.single zone n,
                        none_there,
                        string_eq.beq_iff node.name n,
                      ))
                      (ap (λ x. x +ℤ pos 1) v.counted
                        ∙ pos_add (sum_by size t.tree) 1
                        ∙ ap pos (
                            omega (
                              arith,
                              sum_by-insert_old size zone na b t.tree old,
                              length-append na.nodes (node.name ∷ []),
                            ))),
                  λ z n. ground (
                    arith,
                    listed-insert zone z n b t.tree,
                    count-append n node.name na.nodes,
                    here n,
                    none_there,
                    string_eq.beq_iff node.name n,
                    string_eq.beq_iff zone z,
                  ),
                )
        ]
  ]

minus_one : (num : ℤ) (a b : ℕ) → num ≡ pos a → b + 1 ≡ a → num -ℤ pos 1 ≡ pos b
unfolding ◌-ℤ◌
minus_one num a b e h = rw e (ground (arith, h))

List-cases :
    (xs : List String) → (xs ≡ []) ⊎ ((x : String) × (rest : List String) × (xs ≡ x ∷ rest))
List-cases [] = inl refl
List-cases (x ∷ xs) = inr (x, xs, refl)

-- A zone that loses its last node.
remove_zone-IsValid :
    (t : NodeTree) (k : String) (a : NodeArray) (num : ℤ)
    → IsValid t
    → lookup k t.tree ≡ some a
    → num ≡ pos (sum_by size (Map.delete k t.tree))
    → IsValid (record (remove_zone t k) { num_nodes = num })
unfolding remove_zone
remove_zone-IsValid t k a num v old c = record {
  distinct = delete-IsUnique k v.distinct;
  zoned = λ z. ground (
    arith,
    v.zoned z,
    v.zoned k,
    lookup-delete k z t.tree,
    count-remove_first k z t.zones,
    string_eq.beq_iff k z,
    old,
  );
  filled = λ z na e. ground (arith, lookup-delete k z t.tree, v.filled z na, e);
  single = λ z n. ground (arith, lookup-delete k z t.tree, v.single z n, count-nil n);
  counted = c;
}

module _ (get_zone_key : Node → String) (t : NodeTree) (node : Node) (v : IsValid t) where
  -- removeNode of a node that is listed takes it off its zone, leaves all else as it was, takes an
  -- empty zone out of the tree and keeps the tree valid.
  pub remove_node-Lists :
      0 < listed t (get_zone_key node) node.name
      → ((remove_node get_zone_key t node).1 ≡ none)
        × IsValid ((remove_node get_zone_key t node).0)
        × Lists get_zone_key t node v 0 ((remove_node get_zone_key t node).0)
  unfolding remove_node
  remove_node-Lists p = elim (Option-cases (lookup (get_zone_key node) t.tree)) [
    | inl nothing ↦ absurd (omega (arith, rw nothing at p, count-nil node.name))
    | inr (na, old) ↦
        let k = get_zone_key node in
        let here : (n : String) → listed t k n ≡ count n na.nodes = λ n. rw old in
        let q : 0 < count node.name na.nodes = omega (arith, here node.name) in
        let there : has_node node.name na.nodes ≡ true =
          elim (Bool-cases (has_node node.name na.nodes)) [
            | inl holds ↦ holds
            | inr fails ↦ absurd (omega (arith, q, count-has_node node.name na.nodes fails))
          ] in
        elim (List-cases (remove_first node.name na.nodes)) [
          | inl last ↦
              let rest : (n : String) → count n (remove_first node.name na.nodes) ≡ 0 =
                λ n. rw last (count-nil n) in
              let one : 1 ≡ size na = rw last at (length-remove_first node.name na.nodes q) in
              rw (old, there, last, remove_node, take_node)
                (
                  refl,
                  remove_zone-IsValid t k na (t.num_nodes -ℤ pos 1) v old (
                      minus_one t.num_nodes (sum_by size t.tree) _ v.counted
                        (omega (arith, sum_by-delete size k na v.distinct old, one))),
                  λ z n. ground (
                    arith,
                    lookup-delete k z t.tree,
                    count-remove_first node.name n na.nodes q,
                    rest n,
                    here n,
                    count-nil n,
                    string_eq.beq_iff k z,
                    remove_zone,
                  ),
                )
          | inr (m, ms, more) ↦
              let b : NodeArray = record na { nodes = m ∷ ms } in
              let rest : (n : String)
                  → count n b.nodes + (if node.name === n then 1 else 0) ≡ count n na.nodes =
                λ n. rw more at (count-remove_first node.name n na.nodes q) in
              let shorter : size b + 1 ≡ size na =
                rw more at (length-remove_first node.name na.nodes q) in
              rw (old, there, more, remove_node, take_node)
                (
                  refl,
                  change-IsValid t k na b t.zone_index (t.num_nodes -ℤ pos 1) v old (omega arith)
                      (λ n. omega (arith, rest n, here n, v.single k n))
                      (minus_one t.num_nodes (sum_by size t.tree) _ v.counted
                        (omega (arith, sum_by-insert_old size k na b t.tree old, shorter))),
                  λ z n. ground (
                    arith,
                    listed-insert k z n b t.tree,
                    rest n,
                    here n,
                    v.single k n,
                    string_eq.beq_iff node.name n,
                    string_eq.beq_iff k z,
                  ),
                )
        ]
  ]

  -- removeNode of a node that is not listed in its zone fails and changes nothing.
  pub remove_node-absent :
      listed t (get_zone_key node) node.name ≡ 0
      → remove_node get_zone_key t node ≡ (t, some (node_not_found node.name (get_zone_key node)))
  unfolding remove_node
  remove_node-absent p = elim (Option-cases (lookup (get_zone_key node) t.tree)) [
    | inl nothing ↦ rw (nothing, remove_node)
    | inr (na, old) ↦ elim (Bool-cases (has_node node.name na.nodes)) [
      | inl holds ↦
          let here : listed t (get_zone_key node) node.name ≡ count node.name na.nodes = rw old in
          absurd (omega (arith, p, here, has_node-count node.name na.nodes holds))
      | inr fails ↦ rw (old, fails, remove_node)
    ]
  ]

no_nodes-IsValid : IsValid (record { tree = []; zones = []; zone_index = 0; num_nodes = pos 0 })
unfolding lookup sum_by
no_nodes-IsValid = record {
  distinct = unique_nil;
  zoned = λ z. count-nil z;
  filled = λ z na e. absurd (cc);
  single = λ z n. omega (arith, count-nil n);
  counted = refl;
}

add_nodes-IsValid :
    (get_zone_key : Node → String) (t : NodeTree) (ns : List Node)
    → IsValid t
    → IsValid (add_nodes get_zone_key t ns)
unfolding add_nodes
add_nodes-IsValid get_zone_key t [] v = v
add_nodes-IsValid get_zone_key t (n ∷ ns) v =
    add_nodes-IsValid get_zone_key (add_node get_zone_key t n) ns
      ((add_node-Lists get_zone_key t n v).0)

-- newNodeTree gives a valid tree, whatever nodes it is given.
pub new_node_tree-IsValid :
    (get_zone_key : Node → String) (ns : List Node) → IsValid (new_node_tree get_zone_key ns)
unfolding new_node_tree
new_node_tree-IsValid get_zone_key ns = add_nodes-IsValid get_zone_key _ ns no_nodes-IsValid
