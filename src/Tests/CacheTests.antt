-- ===== src/Tests/CacheTests.antt =====
-- Caches of one pod under scheduler/internal/cache/cache.go, and host ports.
use cloud_prophet.Prelude.{
  inr, ◌≡◌, refl, true, false, none, some, [], string_eq, Returns, value, run_value,
}
use cloud_prophet.Prelude.Int.{pos, ◌+ℤ◌}
use cloud_prophet.Prelude.Map.{lookup, insert}
use cloud_prophet.Scheduler.Pod.{Pod, get_pod_key}
use cloud_prophet.Scheduler.NodeInfo.{find_key, new_node_info}
use cloud_prophet.Scheduler.NodeInfo
use cloud_prophet.Scheduler.NodeInfo.Ports.{
  HostPortInfo, ProtocolPort, at_address, check_conflict, sanitize_ip, same_port, new_protocol_port,
  default_bind_all_host_ip,
}
use cloud_prophet.Scheduler.NodeInfo.Ports
use cloud_prophet.Scheduler.Cache.Store.{
  SchedulerCache, new_scheduler_cache, PodState, assumed, assume_pod, finish_binding, add_pod,
  remove_pod, add_pod_to_node, move_node_info_to_head, at_item,
}
use cloud_prophet.Scheduler.Cache.Store.Phase.{
  absent, pending, bound, phase, Moves, Held, assume_pod-Moves,
}
use cloud_prophet.Scheduler.Cache.Store.Pods.{LeavesNode}
use cloud_prophet.Scheduler.Cache.Store.Transitions.{Placed, remove_pod-Leaves, add_pod-Placed}
use cloud_prophet.Scheduler.Cache.Nodes.{clean_up_one}
use cloud_prophet.Scheduler.Cache.Nodes.Expiry.{CleansUp, clean_up_one-CleansUp}
use cloud_prophet.Tests.QueueTests.{pod_named}

abbrev pod : Pod
pod = record (pod_named "a") {
  spec = record {
    node_name = "n1";
    affinity = none;
    containers = [];
    init_containers = [];
    overhead = none;
    other_spec = 0;
  };
}

abbrev state : PodState
state = record { pod = pod; deadline = none; binding_finished = false }

abbrev empty : SchedulerCache
empty = new_scheduler_cache (pos 30)

key : get_pod_key pod ≡ value "a"
unfolding get_pod_key
key = refl

no_pod : phase empty "a" ≡ absent
unfolding new_scheduler_cache lookup
no_pod = refl

assume_pod-Moves_example :
    Returns (λ (d, e). (e ≡ none) × Moves empty "a" pending d) (assume_pod empty pod)
assume_pod-Moves_example = assume_pod-Moves empty pod "a" key no_pod

-- The cache after AssumePod, and after AddPod.
abbrev waits : SchedulerCache
waits = (run_value (assume_pod empty pod) (empty, none)).0

abbrev runs : SchedulerCache
runs = (run_value (add_pod empty pod) (empty, none)).0

waits_state : lookup "a" waits.pod_states ≡ some state
unfolding assume_pod add_pod_to_node move_node_info_to_head get_pod_key insert lookup
    new_scheduler_cache at_item
waits_state = refl

waits_flag : assumed waits "a" ≡ true
unfolding assume_pod add_pod_to_node move_node_info_to_head get_pod_key insert lookup
    new_scheduler_cache at_item
waits_flag = refl

runs_state : lookup "a" runs.pod_states ≡ some state
unfolding add_pod add_pod_to_node move_node_info_to_head get_pod_key insert lookup
    new_scheduler_cache at_item
runs_state = refl

runs_flag : assumed runs "a" ≡ false
unfolding add_pod add_pod_to_node move_node_info_to_head get_pod_key insert lookup
    new_scheduler_cache at_item
runs_flag = refl

waits-Held : Held waits pod "a"
unfolding assume_pod add_pod_to_node move_node_info_to_head get_pod_key insert lookup
    new_scheduler_cache at_item find_key NodeInfo.add_pod new_node_info
waits-Held = record { item = _; index = 0; at_node = refl; at_index = refl }

runs-Held : Held runs pod "a"
unfolding add_pod add_pod_to_node move_node_info_to_head get_pod_key insert lookup
    new_scheduler_cache at_item find_key NodeInfo.add_pod new_node_info
runs-Held = record { item = _; index = 0; at_node = refl; at_index = refl }

remove_pod-Leaves_example :
    Returns
      (λ (d, e). (e ≡ none) × Moves runs "a" absent d × LeavesNode runs pod "a" d)
      (remove_pod runs pod)
remove_pod-Leaves_example =
    remove_pod-Leaves runs pod "a" key state runs_state runs_flag refl key runs-Held

-- The pod that AddPod brings names another node.
abbrev pod' : Pod
pod' = record pod { spec = record pod.spec { node_name = "n2" } }

key' : get_pod_key pod' ≡ value "a"
unfolding get_pod_key
key' = refl

add_pod-Placed_example :
    Returns
      (λ (d, e).
        (e ≡ none)
        × Moves waits "a" bound d
        × (lookup "a" d.pod_states ≡ some (record state { pod = pod' }))
        × Placed waits pod pod' "a" d)
      (add_pod waits pod')
add_pod-Placed_example =
    add_pod-Placed waits pod' "a" key' state waits_state waits_flag key waits-Held

-- The cache once the binding is finished, with the deadline 37.
abbrev finished : SchedulerCache
finished = (run_value (finish_binding waits pod (pos 7)) (waits, none)).0

abbrev finished_state : PodState
finished_state = record state { binding_finished = true; deadline = some (pos 37) }

finished_there : lookup "a" finished.pod_states ≡ some finished_state
unfolding finish_binding assume_pod add_pod_to_node move_node_info_to_head get_pod_key insert lookup
    new_scheduler_cache at_item ◌+ℤ◌
finished_there = refl

finished-Held : Held finished pod "a"
unfolding finish_binding assume_pod add_pod_to_node move_node_info_to_head get_pod_key insert lookup
    new_scheduler_cache at_item find_key NodeInfo.add_pod new_node_info
finished-Held = record { item = _; index = 0; at_node = refl; at_index = refl }

clean_up_one-CleansUp_example :
    Returns (CleansUp finished "a" (pos 40) finished_state) (clean_up_one finished "a" (pos 40))
clean_up_one-CleansUp_example =
    clean_up_one-CleansUp finished "a" (pos 40) finished_state finished_there (inr (pos 37, refl))
      key finished-Held

-- Host ports.
abbrev ports : HostPortInfo
ports = Ports.add [] "" "" (pos 80)

abbrev web : ProtocolPort
web = new_protocol_port "" (pos 80)

check_conflict-add_example : check_conflict ports "10.0.0.1" "" (pos 80) ≡ true
check_conflict-add_example = Ports.check_conflict-add [] "" "10.0.0.1" "" (pos 80) refl refl
