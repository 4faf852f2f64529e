-- ===== src/Samples.antt =====
-- Sample data of pkg/v1: a component, an HTTP event source for it and a node that runs it.
use maelstrom.Prelude.{String, false, some, none, List}
use maelstrom.Prelude.Int.{pos}
use maelstrom.V1.{Component, EventSource, ComponentInfo, NodeStatus}

abbrev pub web : Component
web = record {
  name = "web";
  project_name = "shop";
  min_instances = pos 0;
  max_instances = pos 0;
  max_instances_per_node = pos 0;
  max_concurrency = pos 1;
  start_parallelism = "";
  restart_order = "";
  version = pos 0;
  modified_at = pos 0;
  docker = record {
    image = "web:1";
    http_start_health_check_seconds = pos 0;
    http_health_check_max_failures = pos 2;
    idle_timeout_seconds = pos 0;
    pull_image_on_put = false;
    pull_image_on_start = false;
    reserve_memory_mib = pos 128;
    rest = "";
  };
  rest = "";
}

abbrev pub source_at : String → String → EventSource
source_at name path_prefix = record {
  name = name;
  component_name = "web";
  project_name = "shop";
  version = pos 0;
  modified_at = pos 0;
  http = some (record { hostname = ""; path_prefix = path_prefix; strip_prefix = false });
  cron = none;
  sqs = none;
  awsstepfunc = none;
}

abbrev pub running : String → ComponentInfo
running name = record {
  component_name = name;
  component_version = pos 1;
  status = "active";
  max_concurrency = pos 1;
  memory_reserved_mib = pos 128;
  start_time = pos 0;
  last_request_time = pos 0;
}

abbrev pub node_with : String → List ComponentInfo → NodeStatus
node_with node_id infos = record {
  node_id = node_id;
  started_at = pos 1;
  observed_at = pos 100;
  version = pos 1;
  peer_url = "http://";
  total_memory_mib = pos 1024;
  free_memory_mib = pos 512;
  load_avg_1m = pos 0;
  running_components = infos;
}
