-- ===== src/NodeService/Role.antt =====
-- Which node places a component, the loop for the placement role in PlaceComponent of
-- pkg/maelstrom/node_svc.go, and the messages that end a node, TerminateNode and
-- sendAwsTerminateMessages.
use maelstrom.Prelude.{
  ℕ, String, Bool, true, false, Option, none, some, List, [], ◌∷◌, ◌++◌, ◌=s=◌, if◌then◌else◌,
}
use maelstrom.V1.{NodeStatus}
use maelstrom.Db.Roles.{Reply, answer, failed}
use maelstrom.MaelService.{Rpc, refused, db_error}
use maelstrom.MaelService.Names.{to_lower}
use maelstrom.NodeService.Queue.{Queue, arrive}

-- The result of the loop: the role, the answer of the node that has it, or neither by the deadline.
pub data Placer : Type 0 where
  this_node : Placer
  other_node : Rpc NodeStatus → Placer
  nobody : Placer

-- `replies` are those of AcquireOrRenewRole, one for each round until the deadline, and `peer` what the node
-- with an id answers to PlaceComponent, if it is known.
pub find_placer : String → (String → Option (Rpc NodeStatus)) → List Reply → Placer
find_placer my_node_id peer [] = nobody
find_placer my_node_id peer (failed ∷ replies) = find_placer my_node_id peer replies
find_placer my_node_id peer (answer true role_node ∷ replies) = this_node
find_placer my_node_id peer (answer false role_node ∷ replies) =
    let rest = find_placer my_node_id peer replies in
    if role_node =s= my_node_id
    then rest
    else elim (peer role_node) [ none ↦ rest | some reply ↦ other_node reply ]

-- A call of PlaceComponent up to where it places or waits, which `none` tells.
pub place_component :
    String
    → (String → Option (Rpc NodeStatus))
    → List Reply
    → String
    → ℕ
    → Queue (Rpc NodeStatus)
    → Queue (Rpc NodeStatus) × Option (Rpc NodeStatus)
unfolding find_placer
place_component my_node_id peer replies name caller q = elim (find_placer my_node_id peer replies) [
  | this_node ↦ (arrive (to_lower name) caller q, none)
  | other_node reply ↦ (q, some reply)
  | nobody ↦ (q, some (refused db_error "nodesvc: timeout trying to acquire or delegate placement"))
]

-- What is done with the messages: the instances that shut down here, and those that the other nodes are told.
pub record Terminations : Type 0 where
  pub shut_down : List String
  pub broadcast : List String

-- `TerminateNode` with a hook for an instance, and whether the message is accepted.
terminate_node : String → String → Terminations → Terminations × Bool
terminate_node my_instance_id instance_id t =
    if instance_id =s= my_instance_id
    then (record t { shut_down = t.shut_down ++ (instance_id ∷ []) }, false)
    else (t, false)

pub send_aws_terminate_messages : String → List String → Terminations → Terminations
unfolding terminate_node
send_aws_terminate_messages my_instance_id [] t = t
send_aws_terminate_messages my_instance_id (instance_id ∷ hooks) t =
    let (after, accepted) = terminate_node my_instance_id instance_id t in
    send_aws_terminate_messages my_instance_id hooks (
      if accepted
      then after
      else record after { broadcast = after.broadcast ++ (instance_id ∷ []) })
