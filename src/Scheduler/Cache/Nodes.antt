-- ===== src/Scheduler/Cache/Nodes.antt =====
-- scheduler/internal/cache/cache.go: the nodes and the images of schedulerCache, and the expiry of
-- assumed pods.
pub mod Expiry
use cloud_prophet.Prelude.{
  String, Bool, true, false, Option, none, some, List, [], ◌∷◌, length, if◌then◌else◌, string_eq,
  ◌===◌, Run, ok, panic, ◌>>=◌,
}
use cloud_prophet.Prelude.Int.{ℤ, pos, ◌+ℤ◌, ltb_ℤ}
use cloud_prophet.Prelude.Map.{Map, lookup, insert}
use cloud_prophet.Prelude.Map
use cloud_prophet.Scheduler.Node.{Node, ContainerImage, get_zone_key}
use cloud_prophet.Scheduler.NodeInfo.{NodeInfo, ImageStateSummary, new_node_info}
use cloud_prophet.Scheduler.NodeInfo
use cloud_prophet.Scheduler.Cache.NodeTree
use cloud_prophet.Scheduler.Cache.Store.{
  SchedulerCache, NodeInfoListItem, PodState, ImageState, CacheError, tree, no_node,
  move_node_info_to_head, remove_node_info_from_list, remove_pod_from_node,
}

has_name : String → List String → Bool
has_name n [] = false
has_name n (m ∷ ms) = if m === n then true else has_name n ms

without : String → List String → List String
without n [] = []
without n (m ∷ ms) = if m === n then without n ms else m ∷ without n ms

-- The state of an image with one more node.
image_on : String → ContainerImage → Option ImageState → ImageState
unfolding has_name
image_on node image none = record { size = image.size_bytes; nodes = node ∷ [] }
image_on node image (some s) =
    if has_name node s.nodes then s else record s { nodes = node ∷ s.nodes }

-- The loop over the names of an image: the states, and the summaries of the node.
add_names :
    String
    → ContainerImage
    → List String
    → Map String ImageState × Map String ImageStateSummary
    → Map String ImageState × Map String ImageStateSummary
unfolding image_on
add_names node image [] acc = acc
add_names node image (name ∷ names) (states, sums) =
    let state = image_on node image (lookup name states) in
    let summary : ImageStateSummary = record {
      size = state.size;
      num_nodes = length state.nodes;
    } in
    add_names node image names (
      insert name state states,
      elim (lookup name sums) as (λ _. Map String ImageStateSummary) [
        | none ↦ insert name summary sums
        | some old ↦ sums
      ],
    )

add_images :
    String
    → List ContainerImage
    → Map String ImageState × Map String ImageStateSummary
    → Map String ImageState × Map String ImageStateSummary
unfolding add_names
add_images node [] acc = acc
add_images node (image ∷ images) acc = add_images node images (add_names node image image.names acc)

-- addNodeImageStates: the states of the cache, and the ImageStates of the node.
unfoldable pub add_node_image_states :
    Map String ImageState → Node → Map String ImageState × Map String ImageStateSummary
unfolding add_images
add_node_image_states states node = add_images node.name node.images (states, [])

remove_name : String → Map String ImageState → String → Map String ImageState
unfolding without
remove_name node states name = elim (lookup name states) as (λ _. Map String ImageState) [
  | none ↦ states
  | some s ↦ elim (without node s.nodes) as (λ _. Map String ImageState) [
    | [] ↦ Map.delete name states
    | n ∷ ns ↦ insert name (record s { nodes = n ∷ ns }) states
  ]
]

remove_names : String → List String → Map String ImageState → Map String ImageState
unfolding remove_name
remove_names node [] states = states
remove_names node (name ∷ names) states = remove_names node names (remove_name node states name)

remove_images : String → List ContainerImage → Map String ImageState → Map String ImageState
unfolding remove_names
remove_images node [] states = states
remove_images node (image ∷ images) states =
    remove_images node images (remove_names node image.names states)

unfoldable pub remove_node_image_states :
    Map String ImageState → Option Node → Map String ImageState
unfolding remove_images
remove_node_image_states states none = states
remove_node_image_states states (some node) = remove_images node.name node.images states

-- The item of a node, with the image states that its old images leave, and the generation then.
node_item : SchedulerCache → String → NodeInfoListItem × Map String ImageState × ℤ
unfolding remove_node_image_states
node_item c name =
    let generation = c.generation +ℤ pos 1 in
    elim (lookup name c.nodes) as (λ _. NodeInfoListItem × Map String ImageState × ℤ) [
      | none ↦ (
        record { info = new_node_info generation; next = none; prev = none },
        c.image_states,
        generation,
      )
      | some item ↦ (item, remove_node_image_states c.image_states item.info.node, c.generation)
    ]

-- The last steps of AddNode and UpdateNode: the images, and SetNode.
put_node : SchedulerCache → Node → SchedulerCache
unfolding add_node_image_states
put_node c node =
    let generation = c.generation +ℤ pos 1 in
    let (states, sums) = add_node_image_states c.image_states node in
    elim (lookup node.name c.nodes) as (λ _. SchedulerCache) [
      | none ↦ c
      | some item ↦
          let info = record (NodeInfo.set_node item.info node generation) { image_states = sums } in
          record c {
            nodes = insert node.name (record item { info = info }) c.nodes;
            image_states = states;
            generation = generation;
          }
    ]

-- The first steps: the item, at the head of the list.
touch_node : SchedulerCache → String → SchedulerCache
unfolding node_item move_node_info_to_head
touch_node c name =
    let (item, states, generation) = node_item c name in
    move_node_info_to_head
      (record c {
        nodes = insert name item c.nodes;
        image_states = states;
        generation = generation;
      })
      name

unfoldable pub add_node : SchedulerCache → Node → SchedulerCache
unfolding touch_node put_node
add_node c node =
    let d = touch_node c node.name in
    put_node (record d { node_tree = NodeTree.add_node get_zone_key d.node_tree node }) node

unfoldable pub update_node : SchedulerCache → Option Node → Node → Run SchedulerCache
unfolding touch_node put_node
update_node c old new =
    let d = touch_node c new.name in
    let grown = elim (lookup new.name c.nodes) as (λ _. SchedulerCache) [
      | none ↦ record d { node_tree = NodeTree.add_node get_zone_key d.node_tree new }
      | some item ↦ d
    ] in
    NodeTree.update_node get_zone_key grown.node_tree old new >>= λ t.
    ok (put_node (record grown { node_tree = t }) new)

-- A node without pods goes; one with pods stays as a ghost.
forget_node : SchedulerCache → String → NodeInfo → SchedulerCache
unfolding move_node_info_to_head remove_node_info_from_list
forget_node c name info = elim (info.pods) as (λ _. SchedulerCache) [
  | [] ↦ remove_node_info_from_list c name
  | p ∷ ps ↦ move_node_info_to_head c name
]

unfoldable pub remove_node : SchedulerCache → Node → SchedulerCache × Option CacheError
unfolding forget_node remove_node_image_states
remove_node c node = elim (lookup node.name c.nodes) as (λ _. SchedulerCache × Option CacheError) [
  | none ↦ (c, some no_node)
  | some item ↦
      let generation = c.generation +ℤ pos 1 in
      let info = NodeInfo.remove_node item.info generation in
      let d =
        forget_node
          (record c {
            nodes = insert node.name (record item { info = info }) c.nodes;
            generation = generation;
          })
          node.name info in
      let (t, e) = NodeTree.remove_node get_zone_key d.node_tree node in
      elim e as (λ _. SchedulerCache × Option CacheError) [
        | some err ↦ (record d { node_tree = t }, some (tree err))
        | none ↦ (
          record d {
            node_tree = t;
            image_states = remove_node_image_states d.image_states (some node);
          },
          none,
        )
      ]
]

-- expirePod: an error of removePod keeps the state.
expire_pod : String → PodState → SchedulerCache → Run SchedulerCache
expire_pod k s c = remove_pod_from_node c s.pod >>= λ (d, e). elim e as (λ _. Run SchedulerCache) [
  | some err ↦ ok d
  | none ↦ ok (record d {
    assumed_pods = Map.delete k d.assumed_pods;
    pod_states = Map.delete k d.pod_states;
  })
]

-- One key of the assumed set; a finished binding always has its deadline.
unfoldable pub clean_up_one : SchedulerCache → String → ℤ → Run SchedulerCache
unfolding expire_pod
clean_up_one c k now = elim (lookup k c.pod_states) as (λ _. Run SchedulerCache) [
  | none ↦ panic
  | some s ↦
      let late = elim (s.deadline) as (λ _. Run SchedulerCache) [
        | none ↦ panic
        | some deadline ↦
            let expired = expire_pod k s c in if ltb_ℤ deadline now then expired else ok c
      ] in
      if s.binding_finished then late else ok c
]

clean_up : SchedulerCache → List (String × Bool) → ℤ → Run SchedulerCache
unfolding clean_up_one
clean_up c [] now = ok c
clean_up c ((k, b) ∷ keys) now = clean_up_one c k now >>= λ d. clean_up d keys now

unfoldable pub cleanup_assumed_pods : SchedulerCache → ℤ → Run SchedulerCache
unfolding clean_up
cleanup_assumed_pods c now = clean_up c c.assumed_pods now
