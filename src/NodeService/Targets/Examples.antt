-- ===== src/NodeService/Targets/Examples.antt =====
-- Two calls for the same version of a node.
use maelstrom.Prelude.{◌≡◌, String, [], ◌∷◌, refl, some, false, true, lookup}
use maelstrom.Prelude.Int.{pos, ◌-ℤ◌, ◌+ℤ◌}
use maelstrom.V1.{Component, StartStopComponentsInput}
use maelstrom.Db.Rows.{DbResult, ok}
use maelstrom.Registry.{Registry, new_registry, set_targets}
use maelstrom.MaelService.{rpc_then}
use maelstrom.NodeService.Status.{Node, Readings, resolve_node_status}
use maelstrom.NodeService.Targets.{StartStopComponentsOutput, start_stop_components}
use maelstrom.NodeService.Targets.Outcome.{start_stop_components_once}
use maelstrom.Samples.{web, node_with}

abbrev me : Node
me = record {
  node_id = "me";
  peer_url = "http://";
  start_time_millis = pos 1;
  total_mem_allowed = pos 1024;
  terminated = false;
  cluster = record { my_node_id = "me"; nodes_by_id = [] };
}

abbrev read : Registry → Readings
read r = record {
  version = r.version;
  infos = [];
  now = pos 100;
  meminfo = some (pos 2048, pos 1536);
  loadavg = some (pos 0);
}

abbrev input : StartStopComponentsInput
input = record {
  client_node_id = "placer";
  target_version = pos 5;
  target_counts =
      (record { component_name = "web"; required_memory_mib = pos 128; target_count = pos 2 }) ∷ [];
  return_status = true;
}

abbrev get : String → DbResult Component
get name = ok web

abbrev first_output : StartStopComponentsOutput
first_output = record {
  target_version_mismatch = false;
  target_status = record (node_with "me" []) { version = pos 6 };
}

start_stop_components_once_example :
    (start_stop_components get read false
      (record input { target_counts = [] })
      me
      (start_stop_components get read false input me (new_registry (pos 5))).0).0
    ≡ (start_stop_components get read false input me (new_registry (pos 5))).0
unfolding start_stop_components rpc_then resolve_node_status ◌-ℤ◌ set_targets new_registry lookup
    ◌+ℤ◌
start_stop_components_once_example =
    start_stop_components_once get get read read false false input
      (record input { target_counts = [] }) me me (new_registry (pos 5)) first_output refl refl refl
