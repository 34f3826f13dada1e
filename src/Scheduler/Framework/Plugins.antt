-- ===== src/Scheduler/Framework/Plugins.antt =====
-- The plugin interfaces of scheduler/framework/v1alpha1/interface.go and the configured plugins of a
-- frameworkImpl (scheduler/framework/runtime/framework.go). Plugins are code that the framework calls:
-- each is a name with functions. `S` is what they may read and change, the CycleState and all that they
-- reach beside it. Filter and Score run in parallel over the nodes, and leave it as it is.
use cloud_prophet.Prelude.{String, Bool, Option, List}
use cloud_prophet.Prelude.Int.{ℤ}
use cloud_prophet.Prelude.Map.{Map}
use cloud_prophet.Scheduler.Pod.{Pod}
use cloud_prophet.Scheduler.Node.{Node}
use cloud_prophet.Scheduler.NodeInfo.{NodeInfo}
use cloud_prophet.Scheduler.Framework.Status.{Status, NodeToStatusMap}
use cloud_prophet.Scheduler.Framework.WaitingPods.{WaitingPodsMap}

pub record NodeScore : Type 0 where
  pub name : String
  pub score : ℤ

abbrev pub NodeScoreList : Type 0
NodeScoreList = List NodeScore

pub record PostFilterResult : Type 0 where
  pub nominated_node_name : String

module _ (S : Type 0) where
  pub record PreFilterExtensions : Type 0 where
    pub add_pod : S → Pod → Pod → NodeInfo → Option Status × S
    pub remove_pod : S → Pod → Pod → NodeInfo → Option Status × S

  pub record PreFilterPlugin : Type 0 where
    pub name : String
    pub pre_filter : S → Pod → Option Status × S
    pub extensions : Option PreFilterExtensions

  pub record FilterPlugin : Type 0 where
    pub name : String
    pub filter : S → Pod → NodeInfo → Option Status

  pub record PostFilterPlugin : Type 0 where
    pub name : String
    pub post_filter : S → Pod → NodeToStatusMap → (Option PostFilterResult × Option Status) × S

  pub record PreScorePlugin : Type 0 where
    pub name : String
    pub pre_score : S → Pod → List Node → Option Status × S

  -- ScoreExtensions may be nil; NormalizeScore rewrites the list in place.
  pub record ScorePlugin : Type 0 where
    pub name : String
    pub score : S → Pod → String → ℤ × Option Status
    pub normalize_score : Option (S → Pod → NodeScoreList → Option Status × NodeScoreList)

  pub record ReservePlugin : Type 0 where
    pub name : String
    pub reserve : S → Pod → String → Option Status × S
    pub unreserve : S → Pod → String → S

  pub record PreBindPlugin : Type 0 where
    pub name : String
    pub pre_bind : S → Pod → String → Option Status × S

  pub record BindPlugin : Type 0 where
    pub name : String
    pub bind : S → Pod → String → Option Status × S

  pub record PostBindPlugin : Type 0 where
    pub name : String
    pub post_bind : S → Pod → String → S

  pub record PermitPlugin : Type 0 where
    pub name : String
    pub permit : S → Pod → String → (Option Status × ℤ) × S

  pub record FrameworkImpl : Type 0 where
    pub plugin_name_to_weight_map : Map String ℤ
    pub pre_filter_plugins : List PreFilterPlugin
    pub filter_plugins : List FilterPlugin
    pub post_filter_plugins : List PostFilterPlugin
    pub pre_score_plugins : List PreScorePlugin
    pub score_plugins : List ScorePlugin
    pub reserve_plugins : List ReservePlugin
    pub pre_bind_plugins : List PreBindPlugin
    pub bind_plugins : List BindPlugin
    pub post_bind_plugins : List PostBindPlugin
    pub permit_plugins : List PermitPlugin
    pub waiting_pods : WaitingPodsMap
    pub run_all_filters : Bool
