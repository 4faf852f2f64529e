-- ===== src/NodeService/Autoscale.antt =====
-- One round of the autoscaler, `autoscale` of pkg/maelstrom/node_svc.go: the groups of options are applied in
-- turn.
pub mod InTurn
mod Examples
use maelstrom.Prelude.{
  ℕ, zero, suc, ◌+◌, ◌≡◌, Bool, true, false, ◌&&◌, Option, none, some, List, [], ◌∷◌, ◌++◌, ltb,
  if◌then◌else◌,
}
use maelstrom.V1.{NodeStatus}
use maelstrom.Cluster.{Cluster, set_node}
use maelstrom.Placement.{PlacementOption}
use maelstrom.Scale.{group_options_by_type}

-- What a node answers to StartStopComponents: an error, or the status of it that comes with the answer.
pub data Answer : Type 0 where
  failed : Answer
  answered : Option NodeStatus → Answer

-- The options sent so far, in order, and the nodes known.
pub record Progress : Type 0 where
  pub sent : List PlacementOption
  pub cluster : Cluster

-- Each option is sent, whatever the others' answers are; the count is that of the errors.
pub apply_placement_options :
    (PlacementOption → Answer) → List PlacementOption → Progress → Progress × ℕ
apply_placement_options ask [] p = (p, 0)
apply_placement_options ask (option ∷ group) p =
    let after_send = record p { sent = p.sent ++ (option ∷ []) } in
    elim (ask option) [
      | failed ↦
          let (after, errors) = apply_placement_options ask group after_send in (after, suc errors)
      | answered none ↦ apply_placement_options ask group after_send
      | answered (some status) ↦
          apply_placement_options ask group
            (record after_send { cluster = (set_node status p.cluster).0 })
    ]

-- What a group meets: whether the role is acquired before it, and the answers.
pub record Turn : Type 0 where
  pub acquired : Bool
  pub ask : PlacementOption → Answer

-- One turn of the loop over the groups.
pub apply_group : Turn → List PlacementOption → Progress × Bool → Progress × Bool
unfolding apply_placement_options
apply_group turn [] (p, success) = (p, success)
apply_group turn (option ∷ group) (p, false) = (p, false)
apply_group turn (option ∷ group) (p, true) =
    let (after, errors) = apply_placement_options turn.ask (option ∷ group) p in
    if turn.acquired then (after, if ltb 0 errors then false else true) else (p, false)

-- The loop over the groups.
pub apply_groups : List (Turn × List PlacementOption) → Progress × Bool → Progress × Bool
unfolding apply_group
apply_groups [] p = p
apply_groups ((turn, group) ∷ groups) p = apply_groups groups (apply_group turn group p)

-- `none` where the role is not acquired or the components cannot be loaded; `inputs` are the options that
-- CalcAutoscalePlacement gives.
pub autoscale :
    Bool → Option (List PlacementOption) → Turn → Turn → Turn → Progress → Option (Progress × Bool)
unfolding apply_groups
autoscale false inputs turn1 turn2 turn3 p = none
autoscale true none turn1 turn2 turn3 p = none
autoscale true (some inputs) turn1 turn2 turn3 p =
    let (start_only, start_stop, stop_only) = group_options_by_type inputs in
    some
      (apply_groups ((turn1, start_only) ∷ (turn2, start_stop) ∷ (turn3, stop_only) ∷ []) (p, true))
