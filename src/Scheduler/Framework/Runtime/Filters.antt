-- ===== src/Scheduler/Framework/Runtime/Filters.antt =====
-- RunFilterPlugins of scheduler/framework/runtime/framework.go and the merged status that its callers
-- read.
use cloud_prophet.Prelude.{
  ◌≡◌, refl, ◌∙◌, String, Bool, true, false, ◌&&◌, Option, none, some, List, [], ◌∷◌, is_empty, inl,
  inr, Bool-cases, string_eq, Returns, Returns-map, arith,
}
use cloud_prophet.Prelude.Map.{insert}
use cloud_prophet.Scheduler.Pod.{Pod}
use cloud_prophet.Scheduler.NodeInfo.{NodeInfo}
use cloud_prophet.Scheduler.Framework.Status.{
  Status, PluginToStatus, get_code, is_success, is_unschedulable, new_status, merge,
}
use cloud_prophet.Scheduler.Framework.Status.Merge.{all_failed, merge-failure}
use cloud_prophet.Scheduler.Framework.Plugins.{FilterPlugin, FrameworkImpl}
use cloud_prophet.Scheduler.Framework.Runtime.{run_filters, run_filter_plugins, filter_error}

module _ {S : Type 0} (state : S) (pod : Pod) (node_info : NodeInfo) where
  -- Every plugin lets the pod on the node.
  abbrev pub all_pass : List (FilterPlugin S) → Bool
  all_pass [] = true
  all_pass (pl ∷ pls) = is_success (pl.filter state pod node_info) && all_pass pls

  abbrev Filtered : Bool → PluginToStatus → Type 0
  Filtered pass m = (all_failed m ≡ true) × (is_empty m ≡ pass)

  insert-all_failed :
      (name : String) (status : Option Status) (m : PluginToStatus)
      → is_unschedulable status ≡ true
      → all_failed m ≡ true
      → Filtered false (insert name status m)
  unfolding insert is_unschedulable get_code
  insert-all_failed name none m bad failed = ground arith
  insert-all_failed name (some s) [] bad failed = ground arith
  insert-all_failed name (some s) ((k, t) ∷ m) bad failed =
      ground (arith, insert-all_failed name (some s) m)

  run_filters-Filtered :
      (run_all : Bool) (pls : List (FilterPlugin S)) (m : PluginToStatus)
      → all_failed m ≡ true
      → Filtered (is_empty m && all_pass pls) (run_filters run_all state pod node_info pls m)
  unfolding run_filters filter_error new_status
  run_filters-Filtered run_all [] m failed = ground arith
  run_filters-Filtered run_all (pl ∷ pls) m failed =
      let status = pl.filter state pod node_info in
      elim (Bool-cases (is_success status)) [
        | inl good ↦ rw (good, run_filters) (run_filters-Filtered run_all pls m failed)
        | inr bad ↦ elim (Bool-cases (is_unschedulable status)) [
          | inl plain ↦
              let added = insert-all_failed pl.name status m plain failed in
              let rest = run_filters-Filtered run_all pls (insert pl.name status m) added.0 in
              ground arith
          | inr other ↦ ground arith
        ]
      ]

  -- RunFilterPlugins gives the map that Merge reads, and the merged status is a success exactly when every
  -- plugin passes the node, whether it runs all filters or stops at the first that fails: runAllFilters
  -- changes the reasons and not the verdict.
  pub merge-run_filter_plugins :
      (f : FrameworkImpl S)
      → Returns
          (λ s. is_success s ≡ all_pass f.filter_plugins)
          (merge (run_filter_plugins f state pod node_info))
  unfolding run_filter_plugins
  merge-run_filter_plugins f =
      let (failed, pass) = run_filters-Filtered f.run_all_filters f.filter_plugins [] refl in
      Returns-map (merge-failure _ failed) λ s verdict. verdict ∙ pass
