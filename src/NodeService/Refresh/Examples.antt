-- ===== src/NodeService/Refresh/Examples.antt =====
-- A node that finds a healthy peer, an unhealthy one and an older node under its own URL.
use maelstrom.Prelude.{◌≡◌, String, [], ◌∷◌, some, none, false, Keyed, lookup, ◌=s=◌}
use maelstrom.Prelude.Int.{pos}
use maelstrom.V1.{NodeStatus}
use maelstrom.Cluster.{Cluster}
use maelstrom.Db.Rows.{NodeStatusRow, StatusFaults}
use maelstrom.NodeService.Status.{Node, Readings, log_status}
use maelstrom.NodeService.Refresh.{Answers, log_status_and_refresh, row_statuses}
use maelstrom.NodeService.Refresh.Kept.{last_kept, log_status_and_refresh_known}
use maelstrom.Samples.{node_with}

abbrev me : Node
me = record {
  node_id = "me";
  peer_url = "http://me";
  start_time_millis = pos 1;
  total_mem_allowed = pos 0;
  terminated = false;
  cluster = record { my_node_id = "me"; nodes_by_id = [] };
}

abbrev readings : Readings
readings = record {
  version = pos 1;
  infos = [];
  now = pos 100;
  meminfo = some (pos 2048, pos 1536);
  loadavg = some (pos 0);
}

abbrev answers : Answers
answers = record {
  delete_fails = λ id. false;
  is_healthy = λ node. NodeStatus.node_id node =s= "a";
}

abbrev row : NodeStatus → String × NodeStatusRow
row node = (node.node_id, record { observed_at = node.observed_at; json = node })

abbrev rows : Keyed NodeStatusRow
rows =
    row (node_with "a" [])
    ∷ row (node_with "b" [])
    ∷ row (record (node_with "old" []) { peer_url = "http://me" })
    ∷ []

abbrev no_faults : StatusFaults
no_faults = record { update_fails = false; rows_unknown = false; insert_fails = false }

log_status_and_refresh_known_example :
    lookup "a" (
      Cluster.nodes_by_id
        (Node.cluster (log_status_and_refresh readings no_faults false answers (pos 50) me rows).0))
    ≡ last_kept answers me
        (pos 50)
        (pos 100)
        "a"
        (row_statuses (log_status readings no_faults me rows).0)
        none
log_status_and_refresh_known_example =
    log_status_and_refresh_known readings no_faults answers (pos 50) me rows "a"
