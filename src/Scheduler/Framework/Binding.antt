-- ===== src/Scheduler/Framework/Binding.antt =====
-- scheduler/framework/runtime/framework.go: the runs of the Reserve and the bind plugins.
pub mod Reserving
use cloud_prophet.Prelude.{
  String, Bool, true, false, Option, none, some, List, [], ◌∷◌, if◌then◌else◌, string_eq, is_empty,
}
use Prim.Native.String.{◌++◌ as ◌++s◌}
use cloud_prophet.Prelude.Int.{ℤ, pos, ltb_ℤ}
use cloud_prophet.Prelude.Map.{Map, insert}
use cloud_prophet.Scheduler.Pod.{Pod}
use cloud_prophet.Scheduler.Node.{Node}
use cloud_prophet.Scheduler.NodeInfo.{NodeInfo}
use cloud_prophet.Scheduler.Framework.Status.{
  Code, Status, PluginToStatus, NodeToStatusMap, new_status, get_code, message, is_success,
  is_unschedulable, code_is_success,
}
use cloud_prophet.Scheduler.Framework.WaitingPods.{
  WaitingPod, WaitingPodsMap, new_waiting_pod, get, reject,
}
use cloud_prophet.Scheduler.Framework.WaitingPods
use cloud_prophet.Scheduler.Framework.Plugins.{
  PreFilterExtensions, PreFilterPlugin, FilterPlugin, PostFilterPlugin, PostFilterResult,
  PreScorePlugin, ReservePlugin, PreBindPlugin, BindPlugin, PostBindPlugin, PermitPlugin,
  FrameworkImpl,
}
use cloud_prophet.Scheduler.Framework.Runtime.{quote, run_each, run_all, error_status}

abbrev is_skip : Code → Bool
is_skip Code.skip = true
is_skip _ = false

module _ {S : Type 0} where
  unfoldable pub run_pre_bind_plugins : FrameworkImpl S → Pod → String → S → Option Status × S
  run_pre_bind_plugins f pod node_name =
      run_each (λ pl state. pl.pre_bind state pod node_name)
        (λ pl status. error_status (
          "error while running "
          ++s quote pl.name
          ++s " prebind plugin for pod "
          ++s quote pod.name
          ++s ": "
          ++s message status))
        f.pre_bind_plugins

  bind_error : Pod → BindPlugin S → Option Status → Option Status
  bind_error pod pl status = error_status (
      "plugin "
      ++s quote pl.name
      ++s " failed to bind pod \""
      ++s pod.namespace
      ++s "/"
      ++s pod.name
      ++s "\": "
      ++s message status)

  -- The loop of RunBindPlugins; `last` is the status of the plugin before. A nil status has the
  -- code Success.
  unfoldable pub run_binds :
      Pod → String → List (BindPlugin S) → Option Status → S → Option Status × S
  unfolding bind_error
  run_binds pod node_name [] last state = (last, state)
  run_binds pod node_name (pl ∷ pls) last state =
      let (status, next) = pl.bind state pod node_name in
      let rest = run_binds pod node_name pls status next in
      if is_skip (get_code status)
      then rest
      else if is_success status
      then (status, next)
      else (bind_error pod pl status, next)

  unfoldable pub run_bind_plugins : FrameworkImpl S → Pod → String → S → Option Status × S
  unfolding run_binds
  run_bind_plugins f pod node_name state =
      if is_empty f.bind_plugins
      then (new_status Code.skip ("" ∷ []), state)
      else run_binds pod node_name f.bind_plugins none state

  unfoldable pub run_post_bind_plugins : FrameworkImpl S → Pod → String → S → S
  run_post_bind_plugins f pod node_name =
      run_all (λ pl state. pl.post_bind state pod node_name) f.post_bind_plugins

  unfoldable pub reserve_failed : Pod → ReservePlugin S → Option Status → Option Status
  reserve_failed pod pl status = error_status (
      "error while running Reserve in "
      ++s quote pl.name
      ++s " reserve plugin for pod "
      ++s quote pod.name
      ++s ": "
      ++s message status)

  unfoldable pub run_reserve_plugins_reserve :
      FrameworkImpl S → Pod → String → S → Option Status × S
  unfolding reserve_failed
  run_reserve_plugins_reserve f pod node_name =
      run_each (λ pl state. pl.reserve state pod node_name) (reserve_failed pod) f.reserve_plugins

  -- From the last plugin to the first.
  unfoldable pub unreserve_each : Pod → String → List (ReservePlugin S) → S → S
  unreserve_each pod node_name [] state = state
  unreserve_each pod node_name (pl ∷ pls) state =
      pl.unreserve (unreserve_each pod node_name pls state) pod node_name

  unfoldable pub run_reserve_plugins_unreserve : FrameworkImpl S → Pod → String → S → S
  unfolding unreserve_each
  run_reserve_plugins_unreserve f pod node_name = unreserve_each pod node_name f.reserve_plugins
