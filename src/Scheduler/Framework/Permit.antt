-- ===== src/Scheduler/Framework/Permit.antt =====
-- scheduler/framework/runtime/framework.go: the Permit plugins, and the pods that wait for them.
pub mod Permitting
use cloud_prophet.Prelude.{
  String, Bool, true, false, Option, none, some, List, [], ◌∷◌, if◌then◌else◌, string_eq, is_empty,
}
use Prim.Native.String.{◌++◌ as ◌++s◌}
use cloud_prophet.Prelude.Int.{ℤ, pos, ltb_ℤ}
use cloud_prophet.Prelude.Map.{Map, insert}
use cloud_prophet.Scheduler.Pod.{Pod}
use cloud_prophet.Scheduler.Node.{Node}
use cloud_prophet.Scheduler.NodeInfo.{NodeInfo}
use cloud_prophet.Scheduler.Framework.Status.{
  Code, Status, PluginToStatus, NodeToStatusMap, new_status, get_code, message, is_success,
  is_unschedulable, code_is_success,
}
use cloud_prophet.Scheduler.Framework.WaitingPods.{
  WaitingPod, WaitingPodsMap, new_waiting_pod, get, reject,
}
use cloud_prophet.Scheduler.Framework.WaitingPods
use cloud_prophet.Scheduler.Framework.Plugins.{
  PreFilterExtensions, PreFilterPlugin, FilterPlugin, PostFilterPlugin, PostFilterResult,
  PreScorePlugin, ReservePlugin, PreBindPlugin, BindPlugin, PostBindPlugin, PermitPlugin,
  FrameworkImpl,
}
use cloud_prophet.Scheduler.Framework.Runtime.{quote, run_each, run_all, error_status}

-- 15 * time.Minute, in nanoseconds.
abbrev pub max_timeout : ℤ
max_timeout = pos 900000000000

-- What the loop of RunPermitPlugins comes to: a status to return, or the time that each waiting
-- plugin gets.
pub data Permission : Type 0 where
  denied : Option Status → Permission
  permitted : Map String ℤ → Permission

abbrev pub is_wait : Code → Bool
is_wait Code.wait = true
is_wait _ = false

abbrev pub at_most : ℤ → ℤ → ℤ
at_most limit t = if ltb_ℤ limit t then limit else t

pub permit_outcome : Pod → Option Status → Option Status
permit_outcome pod s =
    if is_success s
    then none
    else if is_unschedulable s
    then new_status (get_code s)
        (("pod " ++s quote pod.name ++s " rejected while waiting on permit: " ++s message s) ∷ [])
    else error_status (
        "error received while waiting on permit for pod " ++s quote pod.name ++s ": " ++s message s)

-- WaitOnPermit blocks while the channel is empty.
pub data Waited (S : Type 0) : Type 0 where
  blocked : Waited S
  resumed : Option Status → FrameworkImpl S → Waited S

module _ {S : Type 0} where
  pub permit_rejected : Pod → PermitPlugin S → Option Status → Option Status
  permit_rejected pod pl status = new_status (get_code status) (
      ("rejected pod "
        ++s quote pod.name
        ++s " by permit plugin "
        ++s quote pl.name
        ++s ": "
        ++s message status)
      ∷ [])

  pub permit_failed : Pod → PermitPlugin S → Option Status → Option Status
  permit_failed pod pl status = error_status (
      "error while running "
      ++s quote pl.name
      ++s " permit plugin for pod "
      ++s quote pod.name
      ++s ": "
      ++s message status)

  unfoldable pub run_permits :
      Pod → String → List (PermitPlugin S) → Map String ℤ → S → Permission × S
  unfolding permit_rejected permit_failed
  run_permits pod node_name [] times state = (permitted times, state)
  run_permits pod node_name (pl ∷ pls) times state =
      let ((status, timeout), next) = pl.permit state pod node_name in
      let times' =
        if is_success status then times else insert pl.name (at_most max_timeout timeout) times in
      let rest = run_permits pod node_name pls times' next in
      if is_success status
      then rest
      else if is_unschedulable status
      then (denied (permit_rejected pod pl status), next)
      else if is_wait (get_code status)
      then rest
      else (denied (permit_failed pod pl status), next)

  -- The status Wait is set with the first entry of the map.
  unfoldable pub finish_permits :
      FrameworkImpl S → Pod → Permission → Option Status × FrameworkImpl S
  unfolding new_waiting_pod WaitingPods.add
  finish_permits f pod (denied status) = (status, f)
  finish_permits f pod (permitted []) = (none, f)
  finish_permits f pod (permitted (t ∷ times)) = (
    new_status Code.wait
        (("one or more plugins asked to wait and no plugin rejected pod " ++s quote pod.name) ∷ []),
    record f { waiting_pods = WaitingPods.add (new_waiting_pod pod (t ∷ times)) f.waiting_pods },
  )

  unfoldable pub run_permit_plugins :
      FrameworkImpl S → Pod → String → S → Option Status × FrameworkImpl S × S
  unfolding run_permits finish_permits
  run_permit_plugins f pod node_name state =
      let (permission, next) = run_permits pod node_name f.permit_plugins [] state in
      let (status, f') = finish_permits f pod permission in (status, f', next)

  -- The deferred call takes the pod off the map.
  unfoldable pub wait_on_permit : FrameworkImpl S → Pod → Waited S
  unfolding permit_outcome get WaitingPods.remove
  wait_on_permit f pod = elim (get pod.uid f.waiting_pods) as (λ _. Waited S) [
    | none ↦ resumed none f
    | some w ↦ elim (w.signal) as (λ _. Waited S) [
      | none ↦ blocked
      | some s ↦
          resumed (permit_outcome pod s)
            (record f { waiting_pods = WaitingPods.remove pod.uid f.waiting_pods })
    ]
  ]

  unfoldable pub reject_waiting_pod : FrameworkImpl S → String → FrameworkImpl S
  unfolding get reject WaitingPods.add
  reject_waiting_pod f uid = elim (get uid f.waiting_pods) as (λ _. FrameworkImpl S) [
    | none ↦ f
    | some w ↦ record f { waiting_pods = insert uid (reject "removed" w) f.waiting_pods }
  ]
