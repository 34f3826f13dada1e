-- ===== src/Scheduler/Framework/Runtime.antt =====
-- scheduler/framework/runtime/framework.go: the runs over the configured plugins of each extension
-- point. The wrapper around each call (runPreFilterPlugin and the like) records metrics only.
pub mod Sequence
pub mod Filters
use cloud_prophet.Prelude.{
  String, Bool, true, false, Option, none, some, List, [], ◌∷◌, if◌then◌else◌, string_eq, is_empty,
  Run, ok, ◌>>=◌,
}
use Prim.Native.String.{◌++◌ as ◌++s◌}
use cloud_prophet.Prelude.Int.{ℤ, pos, ltb_ℤ}
use cloud_prophet.Prelude.Map.{Map, insert}
use cloud_prophet.Scheduler.Pod.{Pod}
use cloud_prophet.Scheduler.Node.{Node}
use cloud_prophet.Scheduler.NodeInfo.{NodeInfo}
use cloud_prophet.Scheduler.Framework.Status.{
  Code, Status, PluginToStatus, NodeToStatusMap, new_status, get_code, message, is_success,
  is_unschedulable, merge,
}
use cloud_prophet.Scheduler.Framework.WaitingPods.{
  WaitingPod, WaitingPodsMap, new_waiting_pod, get, reject,
}
use cloud_prophet.Scheduler.Framework.WaitingPods
use cloud_prophet.Scheduler.Framework.Plugins.{
  PreFilterExtensions, PreFilterPlugin, FilterPlugin, PostFilterPlugin, PostFilterResult,
  PreScorePlugin, ReservePlugin, PreBindPlugin, BindPlugin, PostBindPlugin, PermitPlugin,
  FrameworkImpl,
}

-- %q of names, which have no character that it escapes.
abbrev pub quote : String → String
quote s = "\"" ++s s ++s "\""

-- The loop that the runs share: call each plugin, and return what `failed` makes of the first status
-- that is not a success.
unfoldable pub run_each {ℓ κ} :
    {P : Type ℓ} {S : Type κ}
    → (P → S → Option Status × S)
    → (P → Option Status → Option Status)
    → List P
    → S
    → Option Status × S
run_each call failed [] state = (none, state)
run_each call failed (pl ∷ pls) state =
    let (status, next) = call pl state in
    let rest = run_each call failed pls next in
    if is_success status then rest else (failed pl status, next)

-- The loop of the runs with no status.
unfoldable pub run_all {ℓ κ} : {P : Type ℓ} {S : Type κ} → (P → S → S) → List P → S → S
run_all call [] state = state
run_all call (pl ∷ pls) state = run_all call pls (call pl state)

-- framework.NewStatus(framework.Error, msg).
abbrev pub error_status : String → Option Status
error_status msg = new_status Code.error (msg ∷ [])

module _ {S : Type 0} where
  unfoldable pub pre_filter_failed : Pod → PreFilterPlugin S → Option Status → Option Status
  pre_filter_failed pod pl status =
      if is_unschedulable status
      then status
      else error_status (
          "prefilter plugin "
          ++s quote pl.name
          ++s " failed for pod "
          ++s quote pod.name
          ++s ": "
          ++s message status)

  unfoldable pub run_pre_filter_plugins : FrameworkImpl S → Pod → S → Option Status × S
  unfolding pre_filter_failed
  run_pre_filter_plugins f pod =
      run_each (λ pl state. pl.pre_filter state pod) (pre_filter_failed pod) f.pre_filter_plugins

  extension_failed : String → Pod → PreFilterPlugin S → Option Status → Option Status
  extension_failed operation pod pl status = error_status (
      "error while running "
      ++s operation
      ++s " for plugin "
      ++s quote pl.name
      ++s " while scheduling pod "
      ++s quote pod.name
      ++s ": "
      ++s message status)

  -- A plugin with no extensions is passed over.
  call_extension :
      (PreFilterExtensions S → S → Option Status × S) → PreFilterPlugin S → S → Option Status × S
  call_extension call pl state = elim (pl.extensions) as (λ _. Option Status × S) [
    | none ↦ (none, state)
    | some extensions ↦ call extensions state
  ]

  unfoldable pub run_pre_filter_extension_add_pod :
      FrameworkImpl S → Pod → Pod → NodeInfo → S → Option Status × S
  unfolding call_extension extension_failed
  run_pre_filter_extension_add_pod f pod_to_schedule pod_to_add node_info =
      run_each
        (call_extension
          λ extensions state. extensions.add_pod state pod_to_schedule pod_to_add node_info)
        (extension_failed "AddPod" pod_to_schedule) f.pre_filter_plugins

  unfoldable pub run_pre_filter_extension_remove_pod :
      FrameworkImpl S → Pod → Pod → NodeInfo → S → Option Status × S
  unfolding call_extension extension_failed
  run_pre_filter_extension_remove_pod f pod_to_schedule pod_to_remove node_info =
      run_each
        (call_extension
          λ extensions state. extensions.remove_pod state pod_to_schedule pod_to_remove node_info)
        (extension_failed "RemovePod" pod_to_schedule) f.pre_filter_plugins

  pub filter_error : Pod → FilterPlugin S → Option Status → PluginToStatus
  filter_error pod pl status =
      (
        pl.name,
        error_status (
            "running "
            ++s quote pl.name
            ++s " filter plugin for pod "
            ++s quote pod.name
            ++s ": "
            ++s message status),
      )
      ∷ []

  -- The loop of RunFilterPlugins; `statuses` is what it has so far.
  unfoldable pub run_filters :
      Bool → S → Pod → NodeInfo → List (FilterPlugin S) → PluginToStatus → PluginToStatus
  unfolding filter_error
  run_filters run_all_filters state pod node_info [] statuses = statuses
  run_filters run_all_filters state pod node_info (pl ∷ pls) statuses =
      let status = pl.filter state pod node_info in
      let next = if is_success status then statuses else insert pl.name status statuses in
      let rest = run_filters run_all_filters state pod node_info pls next in
      if is_success status
      then rest
      else if is_unschedulable status
      then if run_all_filters then rest else next
      else filter_error pod pl status

  unfoldable pub run_filter_plugins : FrameworkImpl S → S → Pod → NodeInfo → PluginToStatus
  unfolding run_filters
  run_filter_plugins f state pod node_info =
      run_filters f.run_all_filters state pod node_info f.filter_plugins []

  -- The loop of RunPostFilterPlugins.
  unfoldable pub run_post_filters :
      Pod
      → NodeToStatusMap
      → List (PostFilterPlugin S)
      → PluginToStatus
      → S
      → Run ((Option PostFilterResult × Option Status) × S)
  run_post_filters pod filtered [] statuses state =
      merge statuses >>= λ status. ok ((none, status), state)
  run_post_filters pod filtered (pl ∷ pls) statuses state =
      let ((result, status), next) = pl.post_filter state pod filtered in
      let rest = run_post_filters pod filtered pls (insert pl.name status statuses) next in
      if is_success status
      then ok ((result, status), next)
      else if is_unschedulable status
      then rest
      else ok ((none, error_status (message status)), next)

  unfoldable pub run_post_filter_plugins :
      FrameworkImpl S
      → Pod
      → NodeToStatusMap
      → S
      → Run ((Option PostFilterResult × Option Status) × S)
  unfolding run_post_filters
  run_post_filter_plugins f pod filtered = run_post_filters pod filtered f.post_filter_plugins []

  unfoldable pub run_pre_score_plugins : FrameworkImpl S → Pod → List Node → S → Option Status × S
  run_pre_score_plugins f pod nodes =
      run_each (λ pl state. pl.pre_score state pod nodes)
        (λ pl status. error_status (
          "error while running "
          ++s quote pl.name
          ++s " prescore plugin for pod "
          ++s quote pod.name
          ++s ": "
          ++s message status))
        f.pre_score_plugins

  unfoldable pub has_filter_plugins : FrameworkImpl S → Bool
  has_filter_plugins f = if is_empty f.filter_plugins then false else true

  unfoldable pub has_score_plugins : FrameworkImpl S → Bool
  has_score_plugins f = if is_empty f.score_plugins then false else true

  unfoldable pub has_post_filter_plugins : FrameworkImpl S → Bool
  has_post_filter_plugins f = if is_empty f.post_filter_plugins then false else true
