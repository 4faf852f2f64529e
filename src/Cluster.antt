-- ===== src/Cluster.antt =====
-- The nodes that a node knows, pkg/maelstrom/cluster.go: the operations under the cluster's lock. Each
-- reply says whether the observers are notified.
mod Known
use maelstrom.Prelude.{
  ℕ, ◌≡◌, String, Bool, true, false, ◌||◌, not, Option, none, some, List, [], ◌∷◌, Keyed, lookup,
  insert, delete, ◌=s=◌, if◌then◌else◌,
}
use maelstrom.Prelude.Int.{ℤ, ltb_ℤ}
use maelstrom.V1.{NodeStatus}

pub record Cluster : Type 0 where
  pub my_node_id : String
  pub nodes_by_id : Keyed NodeStatus

is_newer : NodeStatus → Option NodeStatus → Bool
is_newer node none = true
is_newer node (some old) = ltb_ℤ old.version node.version || ltb_ℤ old.observed_at node.observed_at

pub set_node : NodeStatus → Cluster → Cluster × Bool
unfolding is_newer
set_node node c =
    if is_newer node (lookup node.node_id c.nodes_by_id)
    then (record c { nodes_by_id = insert node.node_id node c.nodes_by_id }, true)
    else (c, false)

unfoldable pub add_nodes : List NodeStatus → Keyed NodeStatus → Keyed NodeStatus
add_nodes [] by_id = by_id
add_nodes (node ∷ nodes) by_id = add_nodes nodes (insert node.node_id node by_id)

unfoldable pub set_all_nodes : List NodeStatus → Cluster → Cluster × Bool
unfolding add_nodes
set_all_nodes nodes c = (record c { nodes_by_id = add_nodes nodes [] }, true)

pub remove_node : String → Cluster → Cluster × Bool
remove_node node_id c = elim (lookup node_id c.nodes_by_id) [
  | none ↦ (c, false)
  | some old ↦ (record c { nodes_by_id = delete node_id c.nodes_by_id }, true)
]

pub get_node_by_id : String → Cluster → Option NodeStatus
get_node_by_id node_id c = lookup node_id c.nodes_by_id

remote_nodes_of : String → Keyed NodeStatus → List NodeStatus
remote_nodes_of my_node_id [] = []
remote_nodes_of my_node_id ((k, node) ∷ nodes) =
    let rest = remote_nodes_of my_node_id nodes in if k =s= my_node_id then rest else node ∷ rest

-- The nodes whose services GetRemoteNodeServices and GetRemoteMaelstromServices give.
pub remote_nodes : Cluster → List NodeStatus
unfolding remote_nodes_of
remote_nodes c = remote_nodes_of c.my_node_id c.nodes_by_id
