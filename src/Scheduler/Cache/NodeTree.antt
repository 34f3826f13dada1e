-- ===== src/Scheduler/Cache/NodeTree.antt =====
-- scheduler/internal/cache/node_tree.go: the nodes by zone, and the rounds over them.
pub mod Sums
pub mod Count
pub mod Invariant
pub mod Next
pub mod Round
pub mod Restart
use cloud_prophet.Prelude.{
  ℕ, zero, suc, ◌+◌, String, Bool, true, false, Option, none, some, List, [], ◌∷◌, ◌++◌, map, ltb,
  leb, if◌then◌else◌, length, get_elem?, string_eq, ◌===◌, Run, ok, panic, out_of_fuel, ◌>>=◌,
  or_panic,
}
use cloud_prophet.Prelude.Int.{ℤ, pos, ◌+ℤ◌, ◌-ℤ◌}
use cloud_prophet.Prelude.Map.{Map, lookup, insert}
use cloud_prophet.Prelude.Map
use cloud_prophet.Scheduler.Node.{Node}

pub record NodeArray : Type 0 where
  pub nodes : List String
  pub last_index : ℕ

-- `tree` maps each zone to its array; `zones` lists its keys.
pub record NodeTree : Type 0 where
  pub tree : Map String NodeArray
  pub zones : List String
  pub zone_index : ℕ
  pub num_nodes : ℤ

pub data TreeError : Type 0 where
  node_not_found : String → String → TreeError

-- The name, whether the array is exhausted, and the array after the call.
unfoldable pub next_in : NodeArray → String × Bool × NodeArray
next_in na = elim (na.nodes) [
  | [] ↦ ("", false, na)
  | n ∷ ns ↦ elim (get_elem? na.nodes na.last_index) [
    | none ↦ ("", true, na)
    | some name ↦ (name, false, record na { last_index = na.last_index + 1 })
  ]
]

unfoldable pub has_node : String → List String → Bool
has_node n [] = false
has_node n (m ∷ ms) = if m === n then true else has_node n ms

-- append(xs[:i], xs[i+1:]...) at the first element that is `n`.
unfoldable pub remove_first : String → List String → List String
remove_first n [] = []
remove_first n (m ∷ ms) = if m === n then ms else m ∷ remove_first n ms

unfoldable pub reset_array : String × NodeArray → String × NodeArray
reset_array (z, na) = (z, record na { last_index = 0 })

unfoldable pub reset_exhausted : NodeTree → NodeTree
unfolding reset_array
reset_exhausted t = record t { tree = map reset_array t.tree; zone_index = 0 }

unfoldable pub remove_zone : NodeTree → String → NodeTree
remove_zone t zone = record t { tree = Map.delete zone t.tree; zones = remove_first zone t.zones }

-- The array without a node that it holds; an array that this empties goes with its zone.
unfoldable pub take_node : NodeTree → String → NodeArray → String → NodeTree
unfolding remove_first remove_zone
take_node t zone na name = elim (remove_first name na.nodes) [
  | [] ↦ remove_zone t zone
  | n ∷ ns ↦ record t { tree = insert zone (record na { nodes = n ∷ ns }) t.tree }
]

-- One pass of the loop of next: the tree, the name, and whether the zone was exhausted.
unfoldable pub visit : NodeTree → Run (NodeTree × String × Bool)
unfolding next_in
visit t =
    let i = if leb (length t.zones) t.zone_index then 0 else t.zone_index in
    or_panic (get_elem? t.zones i) >>= λ zone. or_panic (lookup zone t.tree) >>= λ na.
    let (name, exhausted, na') = next_in na in
    ok (record t { tree = insert zone na' t.tree; zone_index = i + 1 }, name, exhausted)

-- The loop of next, with the number of exhausted zones so far.
unfoldable pub next_loop : ℕ → ℕ → NodeTree → Run (NodeTree × String)
unfolding visit reset_exhausted
next_loop zero seen t = out_of_fuel
next_loop (suc k) seen t = visit t >>= λ (t', name, exhausted).
    let again =
      next_loop k (seen + 1)
        (if leb (length t'.zones) (seen + 1) then reset_exhausted t' else t') in
    if exhausted then again else ok (t', name)

-- A round over all zones, and one zone more after the reset.
unfoldable pub next : NodeTree → Run (NodeTree × String)
unfolding next_loop
next t = elim (t.zones) [ [] ↦ ok (t, "") | z ∷ zs ↦ next_loop (suc (length t.zones)) 0 t ]

-- The names that the loop of updateNodeInfoSnapshotList takes from `k` calls of next.
unfoldable pub next_names : ℕ → NodeTree → Run (NodeTree × List String)
unfolding next
next_names zero t = ok (t, [])
next_names (suc k) t =
    next t >>= λ (t', name). next_names k t' >>= λ (t'', names). ok (t'', name ∷ names)

-- For any GetZoneKey.
module _ (get_zone_key : Node → String) where
  unfoldable pub add_node : NodeTree → Node → NodeTree
  unfolding has_node
  add_node t n =
      let zone = get_zone_key n in
      elim (lookup zone t.tree) [
        | some na ↦ if has_node n.name na.nodes then t else record t {
          tree = insert zone (record na { nodes = na.nodes ++ n.name ∷ [] }) t.tree;
          num_nodes = t.num_nodes +ℤ pos 1;
        }
        | none ↦ record t {
          tree = insert zone (record { nodes = n.name ∷ []; last_index = 0 }) t.tree;
          zones = t.zones ++ zone ∷ [];
          num_nodes = t.num_nodes +ℤ pos 1;
        }
      ]

  unfoldable pub add_nodes : NodeTree → List Node → NodeTree
  unfolding add_node
  add_nodes t [] = t
  add_nodes t (n ∷ ns) = add_nodes (add_node t n) ns

  unfoldable pub new_node_tree : List Node → NodeTree
  unfolding add_nodes
  new_node_tree ns =
      add_nodes (record { tree = []; zones = []; zone_index = 0; num_nodes = pos 0 }) ns

  unfoldable pub remove_node : NodeTree → Node → NodeTree × Option TreeError
  unfolding has_node take_node
  remove_node t n =
      let zone = get_zone_key n in
      let missing : NodeTree × Option TreeError = (t, some (node_not_found n.name zone)) in
      elim (lookup zone t.tree) [
        | none ↦ missing
        | some na ↦
            if has_node n.name na.nodes
            then (record (take_node t zone na n.name) { num_nodes = t.num_nodes -ℤ pos 1 }, none)
            else missing
      ]

  -- A nil old node has the zone ""; removeNode then dereferences it.
  unfoldable pub update_node : NodeTree → Option Node → Node → Run NodeTree
  unfolding add_node remove_node
  update_node t old new =
      let old_zone = elim old as (λ _. String) [ none ↦ "" | some o ↦ get_zone_key o ] in
      let moved = elim old as (λ _. Run NodeTree) [
        | none ↦ panic
        | some o ↦ ok (add_node (remove_node t o).0 new)
      ] in
      if old_zone === get_zone_key new then ok t else moved
