-- ===== src/Converge.antt =====
-- The containers of one component on a node and the plan that brings them to their target,
-- pkg/converge/converger.go.
pub mod Plan
pub mod Run
use maelstrom.Prelude.{ℕ, String, Bool, List}
use maelstrom.Prelude.Int.{ℤ}
use maelstrom.V1.{Component}

-- The fields of `Container` (pkg/converge/container.go) that the converger reads or writes.
pub record Container : Type 0 where
  pub id : ℕ
  pub status : String
  pub terminate_reason : String
  pub component : Component
  pub container_id : String

pub record ComponentTarget : Type 0 where
  pub component : Component
  pub count : ℤ

pub record StartStep : Type 0 where
  pub component : Component
  pub lock : Bool

pub record StopStep : Type 0 where
  pub container_id : ℕ
  pub reason : String

pub data ConvergeStep : Type 0 where
  start : StartStep → ConvergeStep
  stop : StopStep → ConvergeStep

pub record ConvergePlan : Type 0 where
  pub pull : Bool
  pub steps : List ConvergeStep

abbrev pub reason_scale_down : String
reason_scale_down = "scale down"

abbrev pub reason_version_changed : String
reason_version_changed = "component version changed"

abbrev pub reason_image_updated : String
reason_image_updated = "docker image updated"
