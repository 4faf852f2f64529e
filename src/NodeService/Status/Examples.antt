-- ===== src/NodeService/Status/Examples.antt =====
-- A node that may use half of its memory.
use maelstrom.Prelude.{[], refl, some, false, arith}
use maelstrom.Prelude.Int.{pos, ◌-ℤ◌}
use maelstrom.NodeService.Status.{Node, Readings, resolve_node_status}
use maelstrom.NodeService.Status.Memory.{Bounded, resolve_node_status-Bounded}
use maelstrom.Samples.{node_with}

abbrev me : Node
me = record {
  node_id = "me";
  peer_url = "http://";
  start_time_millis = pos 1;
  total_mem_allowed = pos 1024;
  terminated = false;
  cluster = record { my_node_id = "me"; nodes_by_id = [] };
}

abbrev readings : Readings
readings = record {
  version = pos 1;
  infos = [];
  now = pos 100;
  meminfo = some (pos 2048, pos 1536);
  loadavg = some (pos 0);
}

resolve_node_status-Bounded_example : Bounded (pos 1024) (pos 2048) (pos 1024, pos 512)
unfolding resolve_node_status ◌-ℤ◌
resolve_node_status-Bounded_example =
    resolve_node_status-Bounded readings me (node_with "me" []) (pos 2048) (pos 1536) refl
      (omega arith) (omega arith) refl
