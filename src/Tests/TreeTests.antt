-- ===== src/Tests/TreeTests.antt =====
-- Node trees of a few nodes under scheduler/internal/cache/node_tree.go.
use cloud_prophet.Prelude.{
  ℕ, ◌==◌, ◌<◌, ◌≡◌, refl, String, none, some, List, [], ◌∷◌, arith, if◌then◌else◌, string_eq,
  Returns, length, run_value, Returns-run_value,
}
use cloud_prophet.Prelude.Int.{pos, ◌+ℤ◌}
use cloud_prophet.Prelude.Map.{lookup, insert}
use cloud_prophet.Scheduler.Node.{Node}
use cloud_prophet.Scheduler.Cache.NodeTree.{
  NodeTree, new_node_tree, add_node, remove_node, next, next_names, reset_exhausted, node_not_found,
  has_node, add_nodes,
}
use cloud_prophet.Scheduler.Cache.NodeTree.Sums.{sum_by}
use cloud_prophet.Scheduler.Cache.NodeTree.Count.{count}
use cloud_prophet.Scheduler.Cache.NodeTree.Invariant.{
  IsValid, Lists, listed, add_node-Lists, remove_node-Lists, remove_node-absent,
  new_node_tree-IsValid,
}
use cloud_prophet.Scheduler.Cache.NodeTree.Next.{left}
use cloud_prophet.Scheduler.Cache.NodeTree.Round.{Served, next-Served}
use cloud_prophet.Scheduler.Cache.NodeTree.Restart.{
  Resumes, next-Resumes, next_names-All, next_names-rest,
}

abbrev node : String → ℕ → Node
node s k = record { name = s; allocatable = []; images = []; other_node = k }

-- Two zones, by the other data of a node.
abbrev zone_of : Node → String
zone_of n = if n.other_node == 0 then "east" else "west"

abbrev three : List Node
three = node "a" 0 ∷ node "b" 1 ∷ node "c" 0 ∷ []

abbrev tree : NodeTree
tree = new_node_tree zone_of three

tree-IsValid : IsValid tree
tree-IsValid = new_node_tree-IsValid zone_of three

abbrev round : List String
round = "a" ∷ "b" ∷ "c" ∷ []

-- The calls of next take turns over the zones.
round_lem : (run_value (next_names 3 tree) (tree, [])).1 ≡ round
unfolding next_names next new_node_tree add_nodes add_node lookup insert has_node
round_lem = refl

add_node-Lists_example :
    IsValid (add_node zone_of tree (node "d" 1))
    × Lists zone_of tree (node "d" 1) tree-IsValid 1 (add_node zone_of tree (node "d" 1))
add_node-Lists_example = add_node-Lists zone_of tree (node "d" 1) tree-IsValid

a_listed : 0 < listed tree "east" "a"
unfolding count new_node_tree add_nodes add_node lookup insert has_node
a_listed = omega arith

remove_node-Lists_example :
    ((remove_node zone_of tree (node "a" 0)).1 ≡ none)
    × IsValid ((remove_node zone_of tree (node "a" 0)).0)
    × Lists zone_of tree (node "a" 0) tree-IsValid 0 ((remove_node zone_of tree (node "a" 0)).0)
remove_node-Lists_example = remove_node-Lists zone_of tree (node "a" 0) tree-IsValid a_listed

z_absent : listed tree "west" "z" ≡ 0
unfolding count new_node_tree add_nodes add_node lookup insert has_node
z_absent = refl

remove_node-absent_example :
    remove_node zone_of tree (node "z" 1) ≡ (tree, some (node_not_found "z" "west"))
remove_node-absent_example = remove_node-absent zone_of tree (node "z" 1) tree-IsValid z_absent

some_left : 0 < sum_by left tree.tree
unfolding count new_node_tree add_nodes add_node lookup insert has_node sum_by
some_left = omega arith

next-Served_example : Returns (λ (t', name). Served tree t' name) (next tree)
next-Served_example = next-Served tree tree-IsValid some_left

three_nodes : tree.num_nodes ≡ pos 3
unfolding ◌+ℤ◌ count new_node_tree add_nodes add_node lookup insert has_node
three_nodes = refl

next_names-All_example :
    Returns
      (λ (t', ns).
        IsValid t' × ((n : String) → count n ns ≡ sum_by (λ a. count n a.nodes) tree.tree))
      (next_names 3 (reset_exhausted tree))
next_names-All_example = next_names-All 3 tree tree-IsValid three_nodes

-- A tree whose round is over.
abbrev drained : NodeTree
drained = (run_value (next_names 3 tree) (tree, [])).0

all_left : sum_by left tree.tree ≡ 3
unfolding new_node_tree add_nodes add_node lookup insert has_node sum_by
all_left = refl

drained_lem : IsValid drained × (sum_by left drained.tree ≡ 0)
drained_lem =
    let (v, done, rest) =
      Returns-run_value (next_names-rest 3 tree tree-IsValid all_left) (tree, []) in
    (v, done)

drained_zones : 0 < length drained.zones
unfolding next_names next new_node_tree add_nodes add_node lookup insert has_node
drained_zones = omega arith

next-Resumes_example :
    Returns (λ (t', name). (r : NodeTree) × Resumes drained r × Served r t' name) (next drained)
next-Resumes_example = next-Resumes drained drained_lem.0 drained_zones drained_lem.1
