-- ===== src/NodeService/Targets.antt =====
-- Starting and stopping the components of a node, StartStopComponents of pkg/maelstrom/node_svc.go.
pub mod Outcome
mod Examples
use Prim.Native.String.{◌++◌ as ◌<>◌}
use maelstrom.Prelude.{
  ℕ, ◌≡◌, String, Bool, true, false, not, Option, none, some, List, [], ◌∷◌, if◌then◌else◌,
}
use maelstrom.Prelude.Int.{ℤ, pos}
use maelstrom.V1
use maelstrom.V1.{Component, NodeStatus, StartStopComponentsInput}
use maelstrom.Converge.{ComponentTarget}
use maelstrom.Db.Rows.{DbResult, ok, err}
use maelstrom.MaelService.{Rpc, replied, refused, panicked, rpc_then, misc_error}
use maelstrom.Registry.{Registry, set_targets}
use maelstrom.NodeService.Status.{Node, Readings, resolve_node_status}

-- `StartStopComponentsOutput`: the other fields are always empty.
pub record StartStopComponentsOutput : Type 0 where
  pub target_version_mismatch : Bool
  pub target_status : NodeStatus

-- `get` is `GetComponent` of the database. One component that cannot be read refuses all.
pub scale_targets :
    (String → DbResult Component) → List V1.ComponentTarget → Rpc (List ComponentTarget)
scale_targets get [] = replied []
scale_targets get (tc ∷ counts) = elim (get tc.component_name) [
  | err e ↦ refused misc_error ("nodesvc: GetComponent failed for: " <> tc.component_name)
  | ok c ↦
      rpc_then (scale_targets get counts)
        (λ rest. replied ((record { component = c; count = tc.target_count }) ∷ rest))
]

-- `read` is what the node reads once the targets are set, `terminates` whether it is terminated by then.
pub start_stop_components :
    (String → DbResult Component)
    → (Registry → Readings)
    → Bool
    → StartStopComponentsInput
    → Node
    → Registry
    → Registry × Rpc StartStopComponentsOutput
unfolding scale_targets
start_stop_components get read terminates input n r =
    let terminated = refused misc_error "nodesvc: StartStopComponents: node is terminated" in
    if n.terminated then (r, terminated) else elim (scale_targets get input.target_counts) [
      | refused code message ↦ (r, refused code message)
      | panicked ↦ (r, panicked)
      | replied targets ↦
          let (after, version_match) = set_targets input.target_version targets r in
          elim (resolve_node_status (read after) n) [
            | none ↦
                (after, refused misc_error "nodesvc: StartStopComponents:resolveNodeStatus failed")
            | some status ↦ if terminates then (after, terminated) else (
              after,
              replied
                  (record { target_version_mismatch = not version_match; target_status = status }),
            )
          ]
    ]
