-- ===== src/Scheduler/Node.antt =====
-- The Kubernetes node as the scheduler reads it, and scheduler/helper/node.go.
use cloud_prophet.Prelude.{ℕ, String, List}
use cloud_prophet.Prelude.Int.{ℤ}
use cloud_prophet.Scheduler.Pod.{ResourceList}

-- v1.ContainerImage.
pub record ContainerImage : Type 0 where
  pub names : List String
  pub size_bytes : ℤ

-- v1.Node. `other_node` stands for the rest of it.
pub record Node : Type 0 where
  pub name : String
  pub allocatable : ResourceList
  pub images : List ContainerImage
  pub other_node : ℕ

-- The zone of every node is "".
unfoldable pub get_zone_key : Node → String
get_zone_key n = ""
