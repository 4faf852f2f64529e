-- ===== src/NodeService/Refresh.antt =====
-- How a node refreshes what it knows of the others from the database,
-- logStatusAndRefreshClusterNodeList of pkg/maelstrom/node_svc.go.
pub mod Kept
mod Examples
use maelstrom.Prelude.{
  ◌≡◌, String, Bool, true, false, ◌&&◌, ◌||◌, not, Option, none, some, List, [], ◌∷◌, Keyed, ◌=s=◌,
  if◌then◌else◌,
}
use maelstrom.Prelude.Int.{ℤ, pos, ◌-ℤ◌, ltb_ℤ}
use maelstrom.V1.{NodeStatus}
use maelstrom.Cluster.{set_all_nodes}
use maelstrom.Db.Rows.{NodeStatusRow, StatusFaults, remove_row}
use maelstrom.NodeService.Status.{Node, Readings, log_status}

-- The oldest observation that is not stale, 0 where nodes do not become stale.
pub min_observed_at : ℤ → ℤ → ℤ
min_observed_at node_liveness now =
    if ltb_ℤ (pos 0) node_liveness then now -ℤ node_liveness else pos 0

-- A row of another node under this node's URL, or one that is stale.
pub is_invalid : Node → ℤ → NodeStatus → Bool
is_invalid n oldest node =
    node.peer_url =s= n.peer_url && not (node.node_id =s= n.node_id)
    || ltb_ℤ (pos 0) oldest && ltb_ℤ node.observed_at oldest

-- The answers of the others: whether the delete of a row fails, and whether a peer is healthy.
pub record Answers : Type 0 where
  pub delete_fails : String → Bool
  pub is_healthy : NodeStatus → Bool

remove_invalid : Answers → Node → ℤ → List NodeStatus → Keyed NodeStatusRow → Keyed NodeStatusRow
unfolding is_invalid
remove_invalid answers n oldest [] t = t
remove_invalid answers n oldest (node ∷ nodes) t = remove_invalid answers n oldest nodes (
    if is_invalid n oldest node
    then (remove_row (answers.delete_fails node.node_id) node.node_id t).0
    else t)

-- The nodes that come out of the channel, in the order of the rows.
pub keep_nodes : Answers → Node → ℤ → List NodeStatus → List NodeStatus
unfolding is_invalid
keep_nodes answers n oldest [] = []
keep_nodes answers n oldest (node ∷ nodes) =
    let rest = keep_nodes answers n oldest nodes in
    if is_invalid n oldest node
    then rest
    else if node.node_id =s= n.node_id
    then node ∷ rest
    else if answers.is_healthy node
    then node ∷ rest
    else rest

pub row_statuses : Keyed NodeStatusRow → List NodeStatus
row_statuses [] = []
row_statuses ((k, row) ∷ t) = row.json ∷ row_statuses t

-- Where the list cannot be read, the cluster stays as it is.
pub log_status_and_refresh :
    Readings
    → StatusFaults
    → Bool
    → Answers
    → ℤ
    → Node
    → Keyed NodeStatusRow
    → Node × Keyed NodeStatusRow
unfolding keep_nodes remove_invalid row_statuses min_observed_at
log_status_and_refresh readings faults list_fails answers node_liveness n t =
    let (logged, is_logged) = log_status readings faults n t in
    let oldest = min_observed_at node_liveness readings.now in
    let all_nodes = row_statuses logged in
    if list_fails then (n, logged) else (
      record n { cluster = (set_all_nodes (keep_nodes answers n oldest all_nodes) n.cluster).0 },
      remove_invalid answers n oldest all_nodes logged,
    )
