-- ===== src/Scheduler/Framework/WaitingPods.antt =====
-- scheduler/framework/runtime/waiting_pods_map.go: the pods that wait in the permit phase. A call
-- holds the lock, so it is one step; the channel has room for one status.
pub mod Decision
use cloud_prophet.Prelude.{
  ℕ, String, Bool, true, false, Option, none, some, List, [], ◌∷◌, if◌then◌else◌, string_eq, ◌==◌,
  length,
}
use Prim.Native.String.{◌++◌ as ◌++s◌}
use cloud_prophet.Prelude.Int.{ℤ}
use cloud_prophet.Prelude.Map.{Map, lookup, insert, delete}
use cloud_prophet.Scheduler.Pod.{Pod}
use cloud_prophet.Scheduler.Framework.Status.{Code, Status, new_status}

-- A time.Timer: when it is due, and whether it was stopped.
pub record Timer : Type 0 where
  pub wait_time : ℤ
  pub stopped : Bool

pub record WaitingPod : Type 0 where
  pub pod : Pod
  pub pending_plugins : Map String Timer
  pub signal : Option (Option Status)

abbrev pub WaitingPodsMap : Type 0
WaitingPodsMap = Map String WaitingPod

-- A Timer for each plugin.
unfoldable pub start_timers : Map String ℤ → Map String Timer
start_timers [] = []
start_timers ((plugin, wait_time) ∷ m) =
    insert plugin (record { wait_time = wait_time; stopped = false }) (start_timers m)

unfoldable pub new_waiting_pod : Pod → Map String ℤ → WaitingPod
unfolding start_timers
new_waiting_pod pod plugins_max_wait_time = record {
  pod = pod;
  pending_plugins = start_timers plugins_max_wait_time;
  signal = none;
}

unfoldable pub get_pending_plugins : Map String Timer → List String
get_pending_plugins [] = []
get_pending_plugins ((p, _) ∷ m) = p ∷ get_pending_plugins m

-- The non-blocking send: a full channel keeps what it holds.
unfoldable pub send : Option Status → Option (Option Status) → Option (Option Status)
send s none = some s
send s (some earlier) = some earlier

unfoldable pub allow : String → WaitingPod → WaitingPod
unfolding send new_status
allow plugin_name w =
    let pending = delete plugin_name w.pending_plugins in
    if length pending == 0
    then record w {
      pending_plugins = pending;
      signal = send (new_status Code.success ("" ∷ [])) w.signal;
    }
    else record w { pending_plugins = pending }

unfoldable pub stop_timers : Map String Timer → Map String Timer
stop_timers [] = []
stop_timers ((p, t) ∷ m) = (p, record t { stopped = true }) ∷ stop_timers m

unfoldable pub reject : String → WaitingPod → WaitingPod
unfolding send new_status stop_timers
reject msg w = record w {
  pending_plugins = stop_timers w.pending_plugins;
  signal = send (new_status Code.unschedulable (msg ∷ [])) w.signal;
}

-- The function of the timer of a plugin. `show_duration` prints a time.Duration.
unfoldable pub expire : (ℤ → String) → ℤ → String → WaitingPod → WaitingPod
unfolding reject
expire show_duration wait_time plugin = reject (
    "rejected due to timeout after waiting "
    ++s show_duration wait_time
    ++s " at plugin "
    ++s plugin)

unfoldable pub add : WaitingPod → WaitingPodsMap → WaitingPodsMap
add w m = insert w.pod.uid w m

unfoldable pub remove : String → WaitingPodsMap → WaitingPodsMap
remove uid m = delete uid m

unfoldable pub get : String → WaitingPodsMap → Option WaitingPod
get uid m = lookup uid m

-- What may happen to a waiting pod: a plugin allows it, someone rejects it, or a timer runs out. A
-- timer that was stopped too late may still run its function.
pub data Event : Type 0 where
  allowed : String → Event
  rejected : String → Event
  expired : ℤ → String → Event

unfoldable pub happen : (ℤ → String) → WaitingPod → Event → WaitingPod
unfolding allow reject expire
happen show_duration w (allowed plugin) = allow plugin w
happen show_duration w (rejected msg) = reject msg w
happen show_duration w (expired wait_time plugin) = expire show_duration wait_time plugin w

unfoldable pub happen_all : (ℤ → String) → WaitingPod → List Event → WaitingPod
unfolding happen
happen_all show_duration w [] = w
happen_all show_duration w (e ∷ es) = happen_all show_duration (happen show_duration w e) es
