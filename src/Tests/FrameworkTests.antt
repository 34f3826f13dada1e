-- ===== src/Tests/FrameworkTests.antt =====
-- A framework of a few plugins under scheduler/framework/runtime/framework.go. What the plugins change
-- is a number.
use cloud_prophet.Prelude.{
  ℕ, ◌+◌, ◌^◌, ◌==◌, ◌≡◌, refl, String, true, false, Option, none, some, List, [], ◌∷◌,
  if◌then◌else◌, inl, inr, Bool-cases, string_eq, ◌===◌, Returns, value, OnValue, arith,
}
use mathlib.Core.List.{Permᴰ}
use cloud_prophet.Prelude.Int.{ℤ, pos}
use cloud_prophet.Prelude.Map.{Map, lookup}
use cloud_prophet.Scheduler.Node.{Node}
use cloud_prophet.Scheduler.NodeInfo.{new_node_info}
use cloud_prophet.Scheduler.Framework.Status.{
  Code, Status, PluginToStatus, get_code, is_success, merge,
}
use cloud_prophet.Scheduler.Framework.Status.Merge.{SameStatus, merge_perm}
use cloud_prophet.Scheduler.Framework.WaitingPods.{
  WaitingPod, Event, allowed, rejected, happen_all, get, get_pending_plugins,
}
use cloud_prophet.Scheduler.Framework.WaitingPods.Decision.{
  view, decide_all, is_admitted, view-happen_all, happen_all-admitted,
}
use cloud_prophet.Scheduler.Framework.Plugins.{
  PreFilterPlugin, FilterPlugin, ScorePlugin, ReservePlugin, PermitPlugin, FrameworkImpl,
}
use cloud_prophet.Scheduler.Framework.Runtime.{run_pre_filter_plugins, run_filter_plugins}
use cloud_prophet.Scheduler.Framework.Runtime.Sequence.{Ends, PreFilterReport, run_pre_filter-Ends}
use cloud_prophet.Scheduler.Framework.Runtime.Filters.{all_pass, merge-run_filter_plugins}
use cloud_prophet.Scheduler.Framework.Binding.{
  run_reserve_plugins_reserve, run_reserve_plugins_unreserve,
}
use cloud_prophet.Scheduler.Framework.Binding.Reserving.{
  idle_none, idle_more, AllUndo, undo_none, undo_more, unreserve-reserve,
}
use cloud_prophet.Scheduler.Framework.Permit.{run_permit_plugins, wait_on_permit}
use cloud_prophet.Scheduler.Framework.Permit.Permitting.{
  PermitEnd, Follows, run_permit_plugins-PermitEnd, wait_on_permit-Follows,
}
use cloud_prophet.Scheduler.Framework.Scoring.{run_score_plugins, weight_of}
use cloud_prophet.Scheduler.Framework.Scoring.Weighted.{
  SoundWeights, IsWeighted, Sized, run_score_plugins-IsWeighted,
}
use cloud_prophet.Scheduler.Framework.Setup.{PluginRef, Made, make_plugins}
use cloud_prophet.Scheduler.Framework.Setup.Total.{
  IsMade, AllWeighed, SoundRefs, make_plugins-IsMade,
}
use cloud_prophet.Tests.QueueTests.{pod_named}

abbrev pub show_int : ℤ → String
show_int z = "n"

abbrev pub node_named : String → Node
node_named s = record { name = s; allocatable = []; images = []; other_node = 0 }

abbrev pub status_of : Code → String → Option Status
status_of code reason = some (record { code = code; reasons = reason ∷ [] })

abbrev counting : PreFilterPlugin ℕ
counting = record { name = "counting"; pre_filter = λ s p. (none, s + 1); extensions = none }

abbrev refusing : PreFilterPlugin ℕ
refusing = record {
  name = "refusing";
  pre_filter = λ s p. (status_of Code.unschedulable "no", s);
  extensions = none;
}

-- It passes every pod but the one that is named "big".
abbrev fit : FilterPlugin ℕ
fit = record {
  name = "fit";
  filter = λ s p i. if p.name === "big" then status_of Code.unschedulable "too big" else none;
}

abbrev score_by : ScorePlugin ℕ
score_by = record {
  name = "score_by";
  score = λ s p n. ((if n === "b" then pos 90 else pos 40), none);
  normalize_score = none;
}

-- What these plugins reserve shows in the number; each Unreserve is idempotent.
abbrev counter : ReservePlugin ℕ
counter = record {
  name = "counter";
  reserve = λ s p n. (none, if s == 1 then 2 else s);
  unreserve = λ s p n. if s == 2 then 1 else s;
}

abbrev full : ReservePlugin ℕ
full = record {
  name = "full";
  reserve = λ s p n. (status_of Code.error "full", if s == 2 then 12 else s);
  unreserve = λ s p n. if s == 12 then 2 else s;
}

abbrev untouched : ReservePlugin ℕ
untouched = record {
  name = "untouched";
  reserve = λ s p n. (none, if s == 12 then 112 else s);
  unreserve = λ s p n. if s == 112 then 12 else s;
}

abbrev slow : PermitPlugin ℕ
slow = record { name = "slow"; permit = λ s p n. ((status_of Code.wait "later", pos (2 ^ 60)), s) }

abbrev waiting_pod : WaitingPod
waiting_pod = record {
  pod = pod_named "a";
  pending_plugins =
      ("p", record { wait_time = pos 5; stopped = false })
      ∷ ("q", record { wait_time = pos 6; stopped = false })
      ∷ [];
  signal = none;
}

abbrev pub small_framework : FrameworkImpl ℕ
small_framework = record {
  plugin_name_to_weight_map = ("score_by", pos 2) ∷ [];
  pre_filter_plugins = counting ∷ [];
  filter_plugins = fit ∷ [];
  post_filter_plugins = [];
  pre_score_plugins = [];
  score_plugins = score_by ∷ [];
  reserve_plugins = counter ∷ counter ∷ [];
  pre_bind_plugins = [];
  bind_plugins = [];
  post_bind_plugins = [];
  permit_plugins = slow ∷ [];
  waiting_pods = ("a", waiting_pod) ∷ [];
  run_all_filters = false;
}

abbrev refusing_framework : FrameworkImpl ℕ
refusing_framework = record small_framework {
  pre_filter_plugins = counting ∷ refusing ∷ counting ∷ [];
}

abbrev two_failures : PluginToStatus
two_failures =
    ("fit", status_of Code.unschedulable "too big") ∷ ("ports", status_of Code.error "broken") ∷ []

abbrev two_failures' : PluginToStatus
two_failures' =
    ("ports", status_of Code.error "broken") ∷ ("fit", status_of Code.unschedulable "too big") ∷ []

merge_perm_example :
    Returns
      (λ r. (get_code r ≡ Code.error) × Returns (SameStatus r) (merge two_failures'))
      (merge two_failures)
merge_perm_example = merge_perm two_failures two_failures' refl (Permᴰ.swap refl refl)

abbrev all_allow : List Event
all_allow = allowed "q" ∷ allowed "p" ∷ rejected "late" ∷ []

view-happen_all_example :
    view (happen_all show_int waiting_pod all_allow) ≡ decide_all (view waiting_pod) all_allow
view-happen_all_example = view-happen_all show_int waiting_pod all_allow

happen_all-admitted_example : is_admitted (view (happen_all show_int waiting_pod all_allow)) ≡ true
unfolding get_pending_plugins
happen_all-admitted_example =
    happen_all-admitted show_int waiting_pod all_allow "p" ("q" ∷ []) refl refl

run_pre_filter-Ends_example :
    Ends
      (λ pl s. pl.pre_filter s (pod_named "a"))
      (λ pl. PreFilterReport)
      (counting ∷ refusing ∷ counting ∷ [])
      0
      (run_pre_filter_plugins refusing_framework (pod_named "a") 0)
run_pre_filter-Ends_example = run_pre_filter-Ends refusing_framework (pod_named "a") 0

merge-run_filter_plugins_example :
    Returns
      (λ s. is_success s ≡ all_pass 0 (pod_named "big") (new_node_info (pos 1)) (fit ∷ []))
      (merge (run_filter_plugins small_framework 0 (pod_named "big") (new_node_info (pos 1))))
merge-run_filter_plugins_example =
    merge-run_filter_plugins 0 (pod_named "big") (new_node_info (pos 1)) small_framework

abbrev all_undo : AllUndo (pod_named "a") "n" (counter ∷ full ∷ untouched ∷ []) 1
all_undo =
    undo_more refl (idle_more refl (idle_more refl idle_none))
      (undo_more refl (idle_more refl idle_none) (undo_more refl idle_none undo_none))

-- Here the second of three plugins fails.
unreserve-reserve_example :
    run_reserve_plugins_unreserve
      (record small_framework { reserve_plugins = counter ∷ full ∷ untouched ∷ [] })
      (pod_named "a")
      "n"
      (run_reserve_plugins_reserve
        (record small_framework { reserve_plugins = counter ∷ full ∷ untouched ∷ [] })
        (pod_named "a")
        "n"
        1).1
    ≡ 1
unreserve-reserve_example =
    unreserve-reserve (pod_named "a") "n"
      (record small_framework { reserve_plugins = counter ∷ full ∷ untouched ∷ [] }) 1 all_undo

run_permit_plugins-PermitEnd_example :
    PermitEnd small_framework
      (pod_named "a")
      (run_permit_plugins small_framework (pod_named "a") "n" 0)
run_permit_plugins-PermitEnd_example =
    run_permit_plugins-PermitEnd (pod_named "a") "n" small_framework 0

wait_on_permit-Follows_example :
    Follows (pod_named "a") (view waiting_pod) (wait_on_permit small_framework (pod_named "a"))
unfolding get lookup
wait_on_permit-Follows_example =
    wait_on_permit-Follows small_framework (pod_named "a") waiting_pod refl

pub small_weights : SoundWeights (("score_by", pos 2) ∷ [])
unfolding lookup
small_weights k = elim (Bool-cases ("score_by" === k)) [
  | inl same ↦ (2, rw (weight_of, same) refl, omega arith)
  | inr other ↦ (0, rw (weight_of, other) refl, omega arith)
]

run_score_plugins-IsWeighted_example :
    OnValue
      (λ m. IsWeighted (("score_by", pos 2) ∷ []) 2 m × Sized (score_by ∷ []) 2 m)
      (run_score_plugins show_int small_framework 0
        (pod_named "a")
        (node_named "a" ∷ node_named "b" ∷ []))
run_score_plugins-IsWeighted_example =
    run_score_plugins-IsWeighted show_int small_framework 0 (pod_named "a")
      (node_named "a" ∷ node_named "b" ∷ []) small_weights

abbrev nothing_made : Made ℕ
nothing_made = record { plugins = []; weights = []; total_priority = pos 0 }

nothing_made-IsMade : IsMade nothing_made
unfolding lookup
nothing_made-IsMade = record {
  weights_sound = λ k. (0, refl, omega arith);
  total = 0;
  total_exact = refl;
  total_small = omega arith;
  worth_total = omega arith;
}

abbrev configured : Map String PluginRef
configured = ("fit", record { name = "fit"; weight = pos 3 }) ∷ []

configured_sound : SoundRefs configured
unfolding lookup
configured_sound k pg e = elim (Bool-cases ("fit" === k)) [
  | inl same ↦ (3, ground arith, omega arith)
  | inr other ↦ absurd (ground arith)
]

make_plugins-IsMade_example :
    OnValue
      (λ m. IsMade m × AllWeighed configured ("fit" ∷ "other" ∷ []) m.weights)
      (make_plugins (λ n. value 0) configured ("fit" ∷ "other" ∷ []) nothing_made)
make_plugins-IsMade_example =
    make_plugins-IsMade (λ n. value 0) configured ("fit" ∷ "other" ∷ []) nothing_made
      configured_sound nothing_made-IsMade
