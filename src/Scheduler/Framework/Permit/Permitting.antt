-- ===== src/Scheduler/Framework/Permit/Permitting.antt =====
-- What RunPermitPlugins and WaitOnPermit of scheduler/framework/runtime/framework.go do together.
use cloud_prophet.Prelude.{
  ◌≡◌, refl, String, Bool, true, false, Option, none, some, List, [], ◌∷◌, if◌then◌else◌, is_empty,
  inl, inr, Bool-cases, Option-cases, string_eq, arith,
}
use cloud_prophet.Prelude.Int.{ℤ, leb_ℤ}
use cloud_prophet.Prelude.Map.{
  Map, insert, lookup-insert_self, lookup-delete_self, all_values, all_values-insert,
  is_empty-insert,
}
use cloud_prophet.Scheduler.Pod.{Pod}
use cloud_prophet.Scheduler.Framework.Status.{
  Status, get_code, is_success, is_unschedulable, new_status,
}
use cloud_prophet.Scheduler.Framework.WaitingPods.{
  WaitingPod, Timer, new_waiting_pod, get, start_timers,
}
use cloud_prophet.Scheduler.Framework.WaitingPods
use cloud_prophet.Scheduler.Framework.WaitingPods.Decision.{
  Decision, undecided, admitted, refused, view,
}
use cloud_prophet.Scheduler.Framework.Plugins.{PermitPlugin, FrameworkImpl}
use cloud_prophet.Scheduler.Framework.Permit.{
  Permission, denied, permitted, run_permits, finish_permits, run_permit_plugins, is_wait,
  max_timeout, at_most, permit_outcome, Waited, blocked, resumed, wait_on_permit, permit_rejected,
  permit_failed,
}

abbrev pub is_undecided : Decision → Bool
is_undecided (undecided _) = true
is_undecided _ = false

-- What WaitOnPermit does for a pod that waits: it blocks while nothing is decided. Then it returns a
-- success for an admitted pod and a failure for a refused one, and takes the pod off the map.
pub data Follows {S : Type 0} (pod : Pod) : Decision → Waited S → Type 0 where
  still_waits : {names : List String} → Follows pod (undecided names) blocked
  lets_through :
      {status : Option Status} {f : FrameworkImpl S}
      → is_success status ≡ true
      → get pod.uid f.waiting_pods ≡ none
      → Follows pod admitted (resumed status f)
  turns_down :
      {status : Option Status} {f : FrameworkImpl S}
      → is_success status ≡ false
      → get pod.uid f.waiting_pods ≡ none
      → Follows pod refused (resumed status f)

module _ {S : Type 0} (f : FrameworkImpl S) (pod : Pod) where
  permit_outcome-is_success : (s : Option Status) → is_success (permit_outcome pod s) ≡ is_success s
  unfolding permit_outcome is_success is_unschedulable get_code new_status
  permit_outcome-is_success s = ground arith

  follows :
      (success : Bool) (status : Option Status) (g : FrameworkImpl S)
      → is_success status ≡ success
      → get pod.uid g.waiting_pods ≡ none
      → Follows pod (if success then admitted else refused) (resumed status g)
  follows true status g verdict gone = lets_through verdict gone
  follows false status g verdict gone = turns_down verdict gone

  -- WaitOnPermit follows the decision of the waiting pod: it blocks while the pod is undecided. It returns a
  -- success for a pod that is admitted and a failure for one that is refused, and takes the pod off the map.
  pub wait_on_permit-Follows :
      (w : WaitingPod)
      → get pod.uid f.waiting_pods ≡ some w
      → Follows pod (view w) (wait_on_permit f pod)
  unfolding wait_on_permit view get WaitingPods.remove
  wait_on_permit-Follows w e = elim (Option-cases w.signal) [
    | inl empty ↦ rw (e, empty, wait_on_permit, view) still_waits
    | inr (s, signal) ↦
        let gone = lookup-delete_self pod.uid f.waiting_pods in
        rw (e, signal, wait_on_permit, view)
          (follows (is_success s) _ _ (permit_outcome-is_success s) gone)
  ]

abbrev pub in_time : ℤ → Bool
in_time t = leb_ℤ t max_timeout

abbrev pub timer_in_time : Timer → Bool
timer_in_time t = in_time t.wait_time

start_timers-in_time :
    (times : Map String ℤ)
    → all_values in_time times ≡ true
    → all_values timer_in_time (start_timers times) ≡ true
unfolding start_timers
start_timers-in_time [] h = refl
start_timers-in_time ((k, t) ∷ times) h =
    all_values-insert timer_in_time k _ (start_timers times) (ground arith)
      (start_timers-in_time times (ground arith))

start_timers-some :
    (t : String × ℤ) (times : Map String ℤ) → is_empty (start_timers (t ∷ times)) ≡ false
unfolding start_timers
start_timers-some (k, t) times = is_empty-insert k _ (start_timers times)

at_most-in_time : (t : ℤ) → in_time (at_most max_timeout t) ≡ true
at_most-in_time t = ground arith

abbrev Permitted : Permission → Type 0
Permitted (denied status) = is_wait (get_code status) ≡ false
Permitted (permitted times) = all_values in_time times ≡ true

-- How RunPermitPlugins ends: the pod does not wait, and nothing is changed; or it waits, undecided, with
-- a timer for each plugin that asked for it.
pub data PermitEnd {S : Type 0} (f : FrameworkImpl S) (pod : Pod)
    : Option Status × FrameworkImpl S × S → Type 0 where
  goes_on :
      {status : Option Status} {next : S}
      → is_wait (get_code status) ≡ false
      → PermitEnd f pod (status, f, next)
  must_wait :
      {status : Option Status} {g : FrameworkImpl S} {next : S} (w : WaitingPod)
      → is_wait (get_code status) ≡ true
      → get pod.uid g.waiting_pods ≡ some w
      → is_undecided (view w) ≡ true
      → is_empty w.pending_plugins ≡ false
      → all_values timer_in_time w.pending_plugins ≡ true
      → PermitEnd f pod (status, g, next)

module _ {S : Type 0} (pod : Pod) (node_name : String) where
  finish_permits-PermitEnd :
      (f : FrameworkImpl S) (permission : Permission) (next : S)
      → Permitted permission
      → let (status, g) = finish_permits f pod permission in PermitEnd f pod (status, g, next)
  unfolding finish_permits new_waiting_pod WaitingPods.add get new_status get_code view
  finish_permits-PermitEnd f (denied status) next h = goes_on h
  finish_permits-PermitEnd f (permitted []) next h = goes_on refl
  finish_permits-PermitEnd f (permitted (t ∷ times)) next h =
      let w = new_waiting_pod pod (t ∷ times) in
      must_wait w refl (lookup-insert_self pod.uid w f.waiting_pods) refl
        (start_timers-some t times) (start_timers-in_time (t ∷ times) h)

  permit_rejected-not_wait :
      (pl : PermitPlugin S) (status : Option Status)
      → is_unschedulable status ≡ true
      → is_wait (get_code (permit_rejected pod pl status)) ≡ false
  unfolding permit_rejected is_unschedulable get_code new_status
  permit_rejected-not_wait pl status h = ground arith

  run_permits-Permitted :
      (pls : List (PermitPlugin S)) (times : Map String ℤ) (state : S)
      → all_values in_time times ≡ true
      → Permitted (run_permits pod node_name pls times state).0
  unfolding run_permits permit_failed get_code new_status
  run_permits-Permitted [] times state h = h
  run_permits-Permitted (pl ∷ pls) times state h =
      let ((status, timeout), next) = pl.permit state pod node_name in
      let waiting = insert pl.name (at_most max_timeout timeout) times in
      let still = all_values-insert in_time pl.name _ times (at_most-in_time timeout) h in
      elim (Bool-cases (is_success status)) [
        | inl good ↦ rw (good, run_permits) (run_permits-Permitted pls times next h)
        | inr bad ↦ elim (Bool-cases (is_unschedulable status)) [
          | inl plain ↦ rw (bad, plain, run_permits) (permit_rejected-not_wait pl status plain)
          | inr other ↦ elim (Bool-cases (is_wait (get_code status))) [
            | inl wait ↦
                rw (bad, other, wait, run_permits) (run_permits-Permitted pls waiting next still)
            | inr broken ↦ rw (bad, other, broken, run_permits) refl
          ]
        ]
      ]

  -- RunPermitPlugins either leaves the map of waiting pods as it is and returns a status that is not Wait,
  -- or it returns Wait and the pod is in the map: undecided, with at least one plugin pending, and no
  -- timer longer than maxTimeout, whatever the plugins asked for.
  pub run_permit_plugins-PermitEnd :
      (f : FrameworkImpl S) (state : S) → PermitEnd f pod (run_permit_plugins f pod node_name state)
  unfolding run_permit_plugins
  run_permit_plugins-PermitEnd f state =
      let permitted = run_permits-Permitted f.permit_plugins [] state refl in
      finish_permits-PermitEnd f _ _ permitted
