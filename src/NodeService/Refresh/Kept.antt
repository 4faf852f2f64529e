-- ===== src/NodeService/Refresh/Kept.antt =====
-- The nodes that a node knows after a refresh, pkg/maelstrom/node_svc.go.
use maelstrom.Prelude.{
  ◌≡◌, refl, ap, ◌∙◌, String, Bool, true, false, ◌&&◌, ◌||◌, not, Option, none, some, List, [], ◌∷◌,
  Keyed, lookup, insert, lookup-insert, ◌=s=◌, if◌then◌else◌, arith,
}
use maelstrom.Prelude.Int.{ℤ, pos, ltb_ℤ, ◌-ℤ◌}
use maelstrom.V1.{NodeStatus}
use maelstrom.Cluster.{Cluster, add_nodes, set_all_nodes}
use maelstrom.Db.Rows.{NodeStatusRow, StatusFaults}
use maelstrom.NodeService.Status.{Node, Readings, log_status}
use maelstrom.NodeService.Refresh.{
  Answers, is_invalid, keep_nodes, row_statuses, min_observed_at, log_status_and_refresh,
}

-- A row is stale if nodes become stale and it was observed before the oldest time that is still good.
abbrev pub is_stale : ℤ → ℤ → NodeStatus → Bool
is_stale node_liveness now node =
    ltb_ℤ (pos 0) node_liveness
    && ltb_ℤ (pos 0) (now -ℤ node_liveness)
    && ltb_ℤ node.observed_at (now -ℤ node_liveness)

-- Whether a row stays: it is not stale, and it is this node's, or that of a healthy node with another URL.
abbrev pub stays : Answers → Node → ℤ → ℤ → NodeStatus → Bool
stays answers n node_liveness now node =
    not (is_stale node_liveness now node)
    && (node.node_id =s= n.node_id || not (node.peer_url =s= n.peer_url) && answers.is_healthy node)

keep_nodes-step :
    (answers : Answers) (n : Node) (node_liveness now : ℤ) (node : NodeStatus)
    (nodes : List NodeStatus)
    → keep_nodes answers n (min_observed_at node_liveness now) (node ∷ nodes) ≡ (
        if stays answers n node_liveness now node
        then node ∷ keep_nodes answers n (min_observed_at node_liveness now) nodes
        else keep_nodes answers n (min_observed_at node_liveness now) nodes)
unfolding keep_nodes is_invalid min_observed_at
keep_nodes-step answers n node_liveness now node nodes = ground arith

-- The last row of a node that stays, or else what there was.
abbrev pub last_kept :
    Answers → Node → ℤ → ℤ → String → List NodeStatus → Option NodeStatus → Option NodeStatus
last_kept answers n node_liveness now node_id [] before = before
last_kept answers n node_liveness now node_id (node ∷ nodes) before =
    last_kept answers n node_liveness now node_id nodes (
      if stays answers n node_liveness now node && node.node_id =s= node_id
      then some node
      else before)

kept_one :
    (kept : Bool) (node : NodeStatus) (nodes : List NodeStatus) (m : Keyed NodeStatus)
    (node_id : String)
    → lookup node_id (add_nodes (if kept then node ∷ nodes else nodes) m)
      ≡ lookup node_id (add_nodes nodes (if kept then insert node.node_id node m else m))
unfolding add_nodes
kept_one true node nodes m node_id = refl
kept_one false node nodes m node_id = refl

found_one :
    (kept : Bool) (node : NodeStatus) (m : Keyed NodeStatus) (node_id : String)
    → lookup node_id (if kept then insert node.node_id node m else m)
      ≡ (if kept && node.node_id =s= node_id then some node else lookup node_id m)
found_one true node m node_id = lookup-insert node.node_id node_id node m
found_one false node m node_id = refl

add_nodes-last_kept :
    (answers : Answers) (n : Node) (node_liveness now : ℤ) (node_id : String)
    (nodes : List NodeStatus) (m : Keyed NodeStatus)
    → lookup node_id (add_nodes (keep_nodes answers n (min_observed_at node_liveness now) nodes) m)
      ≡ last_kept answers n node_liveness now node_id nodes (lookup node_id m)
unfolding add_nodes keep_nodes
add_nodes-last_kept answers n node_liveness now node_id [] m = refl
add_nodes-last_kept answers n node_liveness now node_id (node ∷ nodes) m =
    let kept = stays answers n node_liveness now node in
    ap (λ l. lookup node_id (add_nodes l m))
      (keep_nodes-step answers n node_liveness now node nodes)
    ∙ kept_one kept node (keep_nodes answers n (min_observed_at node_liveness now) nodes) m node_id
    ∙ add_nodes-last_kept answers n node_liveness now node_id nodes
        (if kept then insert node.node_id node m else m)
    ∙ ap (last_kept answers n node_liveness now node_id nodes) (found_one kept node m node_id)

-- After a refresh whose list can be read, whether its own status could be stored before or not, the node knows of
-- each node the status in its last row that stays, and knows no others. A row stays if it is not older than the
-- liveness allows and is the node's own or that of a healthy node with another URL; the rows are those that the table
-- has once the node has tried to store its own status.
pub log_status_and_refresh_known :
    (readings : Readings) (faults : StatusFaults) (answers : Answers) (node_liveness : ℤ) (n : Node)
    (t : Keyed NodeStatusRow) (node_id : String)
    → lookup node_id (
        Cluster.nodes_by_id
          (Node.cluster (log_status_and_refresh readings faults false answers node_liveness n t).0))
      ≡ last_kept answers n node_liveness readings.now node_id
          (row_statuses (log_status readings faults n t).0)
          none
unfolding log_status_and_refresh set_all_nodes lookup
log_status_and_refresh_known readings faults answers node_liveness n t node_id =
    add_nodes-last_kept answers n node_liveness readings.now node_id
      (row_statuses (log_status readings faults n t).0) []
