-- ===== src/Scheduler/Cache/Store/Pods.antt =====
-- The pods on the nodes of the cache, which a pod enters and leaves with addPod and removePod of
-- scheduler/internal/cache/cache.go.
use cloud_prophet.Prelude.{
  ◌≡◌, refl, sym, ap, ◌∙◌, String, false, Option, none, some, List, [], ◌∷◌, ◌++◌, if◌then◌else◌,
  string_eq, ◌===◌, beq_refl, subst, Option-cases, Bool-cases, inl, inr, Returns, returns, value,
}
use cloud_prophet.Prelude.Map.{Map, lookup, insert, lookup-insert, lookup-delete}
use cloud_prophet.Prelude.Map
use cloud_prophet.Scheduler.Pod.{Pod, get_pod_key}
use cloud_prophet.Scheduler.NodeInfo.{NodeInfo, new_node_info, find_key, swap_out}
use cloud_prophet.Scheduler.NodeInfo
use cloud_prophet.Scheduler.NodeInfo.SwapOut.{LosesPod, swap_out-LosesPod}
use cloud_prophet.Scheduler.Cache.Store.{
  SchedulerCache, NodeInfoListItem, at_item, unlink, is_head, item_of, tick, move_node_info_to_head,
  remove_node_info_from_list, add_pod_to_node, settle_node, remove_pod_from_node,
}
use cloud_prophet.Scheduler.Cache.Store.Phase.{Held, List-cases}

abbrev pods_of : Option NodeInfoListItem → List Pod
pods_of o = elim o as (λ _. List Pod) [ none ↦ [] | some item ↦ item.info.pods ]

-- The pods of a node; none where the cache has no such node.
abbrev pub pods_on : SchedulerCache → String → List Pod
pods_on c name = pods_of (lookup name c.nodes)

-- Every node keeps its pods.
abbrev pub SamePods : SchedulerCache → SchedulerCache → Type 0
SamePods c d = (name : String) → pods_on d name ≡ pods_on c name

abbrev SameLists : Map String NodeInfoListItem → Map String NodeInfoListItem → Type 0
SameLists m m' = (j : String) → pods_of (lookup j m') ≡ pods_of (lookup j m)

insert-pods :
    (name j : String) (item : NodeInfoListItem) (m : Map String NodeInfoListItem)
    → pods_of (lookup j (insert name item m))
      ≡ (if name === j then item.info.pods else pods_of (lookup j m))
insert-pods name j item m =
    rw (lookup-insert name j item m)
      (elim (Bool-cases (name === j)) [ inl here ↦ rw here refl | inr other ↦ rw other refl ])

delete-pods :
    (name j : String) (m : Map String NodeInfoListItem)
    → pods_of (lookup j (Map.delete name m)) ≡ (if name === j then [] else pods_of (lookup j m))
delete-pods name j m =
    rw (lookup-delete name j m)
      (elim (Bool-cases (name === j)) [ inl here ↦ rw here refl | inr other ↦ rw other refl ])

-- A choice between lists by a name, where both give the list at that name.
at_name :
    (name j : String) (pods : List Pod) (of : String → List Pod)
    → pods ≡ of name
    → (if name === j then pods else of j) ≡ of j
at_name name j pods of e = elim (Bool-cases (name === j)) [
  | inl here ↦ rw here (e ∙ ap of ((string_eq.beq_iff name j).0 here))
  | inr other ↦ rw other refl
]

insert-SameLists :
    (name : String) (item item' : NodeInfoListItem) (m : Map String NodeInfoListItem)
    → lookup name m ≡ some item
    → item'.info ≡ item.info
    → SameLists m (insert name item' m)
insert-SameLists name item item' m there same j =
    insert-pods name j item' m
    ∙ at_name name j item'.info.pods (λ k. pods_of (lookup k m))
        (ap (λ i. i.pods) same ∙ sym (ap pods_of there))

at_item-SameLists :
    (change : NodeInfoListItem → NodeInfoListItem) (o : Option String)
    (m : Map String NodeInfoListItem)
    → ((i : NodeInfoListItem) → (change i).info ≡ i.info)
    → SameLists m (at_item change o m)
unfolding at_item
at_item-SameLists change none m keeps j = refl
at_item-SameLists change (some name) m keeps j = elim (Option-cases (lookup name m)) [
  | inl nothing ↦ rw (at_item, nothing) refl
  | inr (item, there) ↦
      rw (at_item, there) (insert-SameLists name item (change item) m there (keeps item) j)
]

unlink-SameLists :
    (item : NodeInfoListItem) (m : Map String NodeInfoListItem) → SameLists m (unlink item m)
unfolding unlink
unlink-SameLists item m j =
    at_item-SameLists (λ n. record n { prev = item.prev }) item.next _ (λ i. refl) j
    ∙ at_item-SameLists (λ n. record n { next = item.next }) item.prev m (λ i. refl) j

move-SamePods : (c : SchedulerCache) (name : String) → SamePods c (move_node_info_to_head c name)
unfolding move_node_info_to_head
move-SamePods c name j = elim (Option-cases (lookup name c.nodes)) [
  | inl nothing ↦ rw (nothing, move_node_info_to_head) refl
  | inr (item, there) ↦ elim (Bool-cases (is_head c name)) [
    | inl top ↦ rw (there, top, move_node_info_to_head) refl
    | inr below ↦
        rw (there, below, move_node_info_to_head)
          (at_item-SameLists (λ n. record n { next = c.head_node; prev = none }) (some name) _
              (λ i. refl) j
            ∙ at_item-SameLists (λ n. record n { prev = some name }) c.head_node _ (λ i. refl) j
            ∙ unlink-SameLists item c.nodes j)
  ]
]

remove-SamePods :
    (c : SchedulerCache) (name : String)
    → pods_on c name ≡ []
    → SamePods c (remove_node_info_from_list c name)
unfolding remove_node_info_from_list
remove-SamePods c name empty j = elim (Option-cases (lookup name c.nodes)) [
  | inl nothing ↦ rw (nothing, remove_node_info_from_list) refl
  | inr (item, there) ↦
      rw (there, remove_node_info_from_list)
        (delete-pods name j (unlink item c.nodes)
          ∙ at_name name j [] (λ k. pods_of (lookup k (unlink item c.nodes)))
              (sym (unlink-SameLists item c.nodes name ∙ empty))
          ∙ unlink-SameLists item c.nodes j)
]

-- A pod is the last one on its node, and the other nodes keep their pods.
abbrev pub GainsPod : SchedulerCache → Pod → SchedulerCache → Type 0
GainsPod c pod d =
    (name : String)
    → pods_on d name
      ≡ (if pod.spec.node_name === name then pods_on c name ++ pod ∷ [] else pods_on c name)

item_of-pods : (c : SchedulerCache) (name : String) → (item_of c name).0.info.pods ≡ pods_on c name
unfolding item_of new_node_info
item_of-pods c name = elim (Option-cases (lookup name c.nodes)) [
  | inl nothing ↦ rw (nothing, item_of) refl
  | inr (item, there) ↦ rw (there, item_of) refl
]

gains_at :
    (node name : String) (pod : Pod) (before : List Pod) (of : String → List Pod)
    → before ≡ of node
    → (if node === name then before ++ pod ∷ [] else of name)
      ≡ (if node === name then of name ++ pod ∷ [] else of name)
gains_at node name pod before of e = elim (Bool-cases (node === name)) [
  | inl here ↦ rw here (ap (λ l. l ++ pod ∷ []) (e ∙ ap of ((string_eq.beq_iff node name).0 here)))
  | inr other ↦ rw other refl
]

pub add_pod_to_node-GainsPod :
    (c : SchedulerCache) (pod : Pod) → GainsPod c pod (add_pod_to_node c pod)
unfolding add_pod_to_node item_of NodeInfo.add_pod new_node_info
add_pod_to_node-GainsPod c pod name =
    let node = pod.spec.node_name in
    move-SamePods _ node name
    ∙ insert-pods node name _ c.nodes
    ∙ gains_at node name pod (item_of c node).0.info.pods (pods_on c) (item_of-pods c node)

settle_node-SamePods :
    (c : SchedulerCache) (name : String) (info : NodeInfo)
    → pods_on c name ≡ info.pods
    → SamePods c (settle_node c name info)
unfolding settle_node
settle_node-SamePods c name info same = elim (List-cases info.pods) [
  | inr (p, ps, some_pods) ↦ rw (some_pods, settle_node) (move-SamePods c name)
  | inl no_pods ↦ elim (Option-cases info.node) [
    | inl ghost ↦ rw (no_pods, ghost, settle_node) (remove-SamePods c name (same ∙ no_pods))
    | inr (n, real) ↦ rw (no_pods, real, settle_node) (move-SamePods c name)
  ]
]

-- A pod with the key `k` leaves the node of `pod`, and the other nodes keep their pods.
abbrev pub LeavesNode : SchedulerCache → Pod → String → SchedulerCache → Type 0
LeavesNode c pod k d =
    LosesPod k (pods_on c pod.spec.node_name) (pods_on d pod.spec.node_name)
    × ((name : String) → (pod.spec.node_name === name) ≡ false → pods_on d name ≡ pods_on c name)

pub remove_pod_from_node-LeavesNode :
    (c : SchedulerCache) (pod : Pod) (k : String)
    → get_pod_key pod ≡ value k
    → Held c pod k
    → Returns (λ (d, e). LeavesNode c pod k d) (remove_pod_from_node c pod)
unfolding remove_pod_from_node NodeInfo.remove_pod NodeInfo.take_pod
remove_pod_from_node-LeavesNode c pod k key h =
    let node = pod.spec.node_name in
    let info =
      NodeInfo.take_pod
        (record h.item.info {
          pods_with_affinity = NodeInfo.drop_key k h.item.info.pods_with_affinity;
        })
        pod h.index (tick c) in
    let items = insert node (record h.item { info = info }) c.nodes in
    let now : pods_of (lookup node items) ≡ info.pods =
      insert-pods node node _ c.nodes ∙ rw (beq_refl node) refl in
    let settled =
      settle_node-SamePods (record c { nodes = items; generation = tick c }) node info now in
    let lost = swap_out-LosesPod k h.item.info.pods h.index h.at_index in
    rw (h.at_node, key, h.at_index, remove_pod_from_node, NodeInfo.remove_pod)
      (returns (
        subst (LosesPod k h.item.info.pods) (sym (settled node ∙ now)) lost,
        λ name other. settled name ∙ insert-pods node name _ c.nodes ∙ rw other refl,
      ))
