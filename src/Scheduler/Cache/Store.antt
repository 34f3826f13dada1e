-- ===== src/Scheduler/Cache/Store.antt =====
-- scheduler/internal/cache/cache.go: schedulerCache. The lock makes each call one step. An item of the
-- linked list is reached by the name of its node, so that next and prev are names. Each change of a
-- NodeInfo takes the next value of the generation counter, which the cache carries.
pub mod Phase
pub mod Pods
pub mod Transitions
use cloud_prophet.Prelude.{
  ℕ, zero, suc, ◌+◌, ◌==◌, String, Bool, true, false, ◌&&◌, not, Option, none, some, List, [], ◌∷◌,
  ◌++◌, length, if◌then◌else◌, string_eq, ◌===◌, Run, ok, panic, ◌>>=◌, or_panic, Result, value,
  error,
}
use cloud_prophet.Prelude.Int.{ℤ, pos, ◌+ℤ◌, ltb_ℤ}
use cloud_prophet.Prelude.Map.{Map, lookup, insert}
use cloud_prophet.Prelude.Map
use cloud_prophet.Scheduler.Pod.{Pod, PodKeyError, get_pod_key}
use cloud_prophet.Scheduler.Node.{Node, ContainerImage, get_zone_key}
use cloud_prophet.Scheduler.NodeInfo.{NodeInfo, NodeInfoError, ImageStateSummary, new_node_info}
use cloud_prophet.Scheduler.NodeInfo
use cloud_prophet.Scheduler.Cache.NodeTree.{NodeTree, TreeError, new_node_tree}
use cloud_prophet.Scheduler.Cache.NodeTree

pub record NodeInfoListItem : Type 0 where
  pub info : NodeInfo
  pub next : Option String
  pub prev : Option String

pub record PodState : Type 0 where
  pub pod : Pod
  pub deadline : Option ℤ
  pub binding_finished : Bool

-- `nodes` is a set of names.
pub record ImageState : Type 0 where
  pub size : ℤ
  pub nodes : List String

pub record SchedulerCache : Type 0 where
  pub ttl : ℤ
  pub assumed_pods : Map String Bool
  pub pod_states : Map String PodState
  pub nodes : Map String NodeInfoListItem
  pub head_node : Option String
  pub node_tree : NodeTree
  pub image_states : Map String ImageState
  pub generation : ℤ

pub data CacheError : Type 0 where
  pod_key : PodKeyError → CacheError
  node_info : NodeInfoError → CacheError
  tree : TreeError → CacheError
  already_cached already_added not_assumed not_added not_cached wrong_node no_node : CacheError

abbrev pub Outcome : Type 0
Outcome = Run (SchedulerCache × Option CacheError)

unfoldable pub new_scheduler_cache : ℤ → SchedulerCache
new_scheduler_cache ttl = record {
  ttl = ttl;
  assumed_pods = [];
  pod_states = [];
  nodes = [];
  head_node = none;
  node_tree = new_node_tree get_zone_key [];
  image_states = [];
  generation = pos 0;
}

-- The next generation, and the cache after taking it.
abbrev tick : SchedulerCache → ℤ
tick c = c.generation +ℤ pos 1

-- A map of the items: `change` of the item under a name, if there is one.
unfoldable pub at_item :
    (NodeInfoListItem → NodeInfoListItem)
    → Option String
    → Map String NodeInfoListItem
    → Map String NodeInfoListItem
at_item change none m = m
at_item change (some name) m = elim (lookup name m) as (λ _. Map String NodeInfoListItem) [
  | none ↦ m
  | some item ↦ insert name (change item) m
]

-- The item's neighbours point past it.
unlink : NodeInfoListItem → Map String NodeInfoListItem → Map String NodeInfoListItem
unfolding at_item
unlink item m =
    at_item (λ n. record n { prev = item.prev }) item.next
      (at_item (λ n. record n { next = item.next }) item.prev m)

is_head : SchedulerCache → String → Bool
is_head c name = elim (c.head_node) as (λ _. Bool) [ none ↦ false | some h ↦ h === name ]

unfoldable pub move_node_info_to_head : SchedulerCache → String → SchedulerCache
unfolding unlink at_item is_head
move_node_info_to_head c name = elim (lookup name c.nodes) as (λ _. SchedulerCache) [
  | none ↦ c
  | some item ↦ if is_head c name then c else record c {
    nodes =
        at_item (λ n. record n { next = c.head_node; prev = none }) (some name)
          (at_item (λ n. record n { prev = some name }) c.head_node (unlink item c.nodes));
    head_node = some name;
  }
]

unfoldable pub remove_node_info_from_list : SchedulerCache → String → SchedulerCache
unfolding unlink is_head
remove_node_info_from_list c name = elim (lookup name c.nodes) as (λ _. SchedulerCache) [
  | none ↦ c
  | some item ↦ record c {
    nodes = Map.delete name (unlink item c.nodes);
    head_node = if is_head c name then item.next else c.head_node;
  }
]

-- The item of a name, made if it is not there, and the generation then.
item_of : SchedulerCache → String → NodeInfoListItem × ℤ
item_of c name = elim (lookup name c.nodes) as (λ _. NodeInfoListItem × ℤ) [
  | none ↦ (record { info = new_node_info (tick c); next = none; prev = none }, tick c)
  | some item ↦ (item, c.generation)
]

unfoldable pub add_pod_to_node : SchedulerCache → Pod → SchedulerCache
unfolding item_of move_node_info_to_head
add_pod_to_node c pod =
    let name = pod.spec.node_name in
    let (item, before) = item_of c name in
    let generation = before +ℤ pos 1 in
    move_node_info_to_head
      (record c {
        nodes =
            insert name (record item { info = NodeInfo.add_pod item.info pod generation }) c.nodes;
        generation = generation;
      })
      name

-- After RemovePod of the NodeInfo: a ghost node without pods goes.
settle_node : SchedulerCache → String → NodeInfo → SchedulerCache
unfolding move_node_info_to_head remove_node_info_from_list
settle_node c name info = elim (info.pods) as (λ _. SchedulerCache) [
  | [] ↦ elim (info.node) as (λ _. SchedulerCache) [
    | none ↦ remove_node_info_from_list c name
    | some n ↦ move_node_info_to_head c name
  ]
  | p ∷ ps ↦ move_node_info_to_head c name
]

unfoldable pub remove_pod_from_node : SchedulerCache → Pod → Outcome
unfolding settle_node
remove_pod_from_node c pod =
    let name = pod.spec.node_name in
    elim (lookup name c.nodes) as (λ _. Outcome) [
      | none ↦ ok (c, none)
      | some item ↦ NodeInfo.remove_pod item.info pod (tick c) >>= λ (info, e).
          let d = record c { nodes = insert name (record item { info = info }) c.nodes } in
          elim e as (λ _. Outcome) [
            | some err ↦ ok (d, some (node_info err))
            | none ↦ ok (settle_node (record d { generation = tick c }) name info, none)
          ]
    ]

-- assumedPods[key], which reads as false where it is not set.
abbrev pub assumed : SchedulerCache → String → Bool
assumed c k = elim (lookup k c.assumed_pods) as (λ _. Bool) [ none ↦ false | some b ↦ b ]

fresh_state : Pod → PodState
fresh_state pod = record { pod = pod; deadline = none; binding_finished = false }

-- A call on a pod with a key.
abbrev with_key : SchedulerCache → Pod → (String → Outcome) → Outcome
with_key c pod call = elim (get_pod_key pod) as (λ _. Outcome) [
  | error e ↦ ok (c, some (pod_key e))
  | value k ↦ call k
]

unfoldable pub assume_pod : SchedulerCache → Pod → Outcome
unfolding add_pod_to_node fresh_state
assume_pod c pod = with_key c pod λ k. elim (lookup k c.pod_states) as (λ _. Outcome) [
  | some s ↦ ok (c, some already_cached)
  | none ↦
      let d = add_pod_to_node c pod in
      ok (
        record d {
          pod_states = insert k (fresh_state pod) d.pod_states;
          assumed_pods = insert k true d.assumed_pods;
        },
        none,
      )
]

unfoldable pub finish_binding : SchedulerCache → Pod → ℤ → Outcome
finish_binding c pod now = with_key c pod λ k. elim (lookup k c.pod_states) as (λ _. Outcome) [
  | none ↦ ok (c, none)
  | some s ↦
      if assumed c k
      then ok (
        record c {
          pod_states =
              insert k (record s { binding_finished = true; deadline = some (now +ℤ c.ttl) })
                c.pod_states;
        },
        none,
      )
      else ok (c, none)
]

-- delete of both entries of a key, after removePod.
drop_state : String → SchedulerCache × Option CacheError → Outcome
drop_state k (c, some err) = ok (c, some err)
drop_state k (c, none) = ok (
  record c { assumed_pods = Map.delete k c.assumed_pods; pod_states = Map.delete k c.pod_states },
  none,
)

unfoldable pub forget_pod : SchedulerCache → Pod → Outcome
unfolding remove_pod_from_node drop_state
forget_pod c pod = with_key c pod λ k. elim (lookup k c.pod_states) as (λ _. Outcome) [
  | none ↦ ok (c, some not_assumed)
  | some s ↦
      let forgotten = remove_pod_from_node c pod >>= drop_state k in
      if s.pod.spec.node_name === pod.spec.node_name
      then (if assumed c k then forgotten else ok (c, some not_assumed))
      else ok (c, some wrong_node)
]

-- An assumed pod becomes an added one.
confirm : String → Pod → PodState → SchedulerCache → Outcome
confirm k pod s c = ok (
  record c {
    assumed_pods = Map.delete k c.assumed_pods;
    pod_states = insert k (record s { deadline = none; pod = pod }) c.pod_states;
  },
  none,
)

unfoldable pub add_pod : SchedulerCache → Pod → Outcome
unfolding add_pod_to_node remove_pod_from_node confirm fresh_state
add_pod c pod = with_key c pod λ k. elim (lookup k c.pod_states) as (λ _. Outcome) [
  | none ↦
      let d = add_pod_to_node c pod in
      ok (record d { pod_states = insert k (fresh_state pod) d.pod_states }, none)
  | some s ↦
      let moved =
        remove_pod_from_node c s.pod >>= λ (d, _). confirm k pod s (add_pod_to_node d pod) in
      if assumed c k
      then (if s.pod.spec.node_name === pod.spec.node_name then confirm k pod s c else moved)
      else ok (c, some already_added)
]

-- The two klog.Fatalf end the process, and read as a panic.
unfoldable pub update_pod : SchedulerCache → Pod → Pod → Outcome
unfolding add_pod_to_node remove_pod_from_node
update_pod c old new = with_key c old λ k. elim (lookup k c.pod_states) as (λ _. Outcome) [
  | none ↦ ok (c, some not_added)
  | some s ↦
      let updated = remove_pod_from_node c old >>= λ (d, e). elim e as (λ _. Outcome) [
        | some err ↦ ok (d, some err)
        | none ↦
            let a = add_pod_to_node d new in
            ok (record a { pod_states = insert k (record s { pod = new }) a.pod_states }, none)
      ] in
      if assumed c k
      then ok (c, some not_added)
      else if s.pod.spec.node_name === new.spec.node_name
      then updated
      else panic
]

-- delete of the state alone: the key of an added pod is not assumed.
drop_added : String → SchedulerCache × Option CacheError → Outcome
drop_added k (c, some err) = ok (c, some err)
drop_added k (c, none) = ok (record c { pod_states = Map.delete k c.pod_states }, none)

unfoldable pub remove_pod : SchedulerCache → Pod → Outcome
unfolding remove_pod_from_node drop_added
remove_pod c pod = with_key c pod λ k. elim (lookup k c.pod_states) as (λ _. Outcome) [
  | none ↦ ok (c, some not_cached)
  | some s ↦
      let removed = remove_pod_from_node c s.pod >>= drop_added k in
      if assumed c k
      then ok (c, some not_cached)
      else if s.pod.spec.node_name === pod.spec.node_name
      then removed
      else panic
]

pub is_assumed_pod : SchedulerCache → Pod → Result CacheError Bool
is_assumed_pod c pod = elim (get_pod_key pod) as (λ _. Result CacheError Bool) [
  | error e ↦ error (pod_key e)
  | value k ↦ value (assumed c k)
]

pub get_pod : SchedulerCache → Pod → Result CacheError Pod
get_pod c pod = elim (get_pod_key pod) as (λ _. Result CacheError Pod) [
  | error e ↦ error (pod_key e)
  | value k ↦ elim (lookup k c.pod_states) as (λ _. Result CacheError Pod) [
    | none ↦ error not_cached
    | some s ↦ value s.pod
  ]
]
