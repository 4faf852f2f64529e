-- ===== src/Db/Rows/Examples.antt =====
-- A component, its event source and its nodes.
use maelstrom.Prelude.{
  ◌≡◌, ◌≢◌, refl, ap, String, false, none, [], ◌∷◌, Keyed, lookup, insert, if◌then◌else◌, arith,
}
use maelstrom.Prelude.Int.{ℤ, pos, ◌+ℤ◌, ◌==ℤ◌}
use maelstrom.V1.{Component, NodeStatus}
use maelstrom.Db.Rows.{
  ComponentRow, NodeStatusRow, ok, err, no_faults, already_exists, incorrect_previous_version,
  put_component, get_component, insert_row, with_value,
}
use maelstrom.Db.Rows.Components.{
  put_component_compare_and_set, put_component_once, current_version, next_row, next_component,
  IsVersioned,
}

abbrev web : ℤ → Component
web version = record {
  name = "web";
  project_name = "shop";
  min_instances = pos 1;
  max_instances = pos 3;
  max_instances_per_node = pos 0;
  max_concurrency = pos 5;
  start_parallelism = "series";
  restart_order = "startstop";
  version = version;
  modified_at = pos 0;
  docker = record {
    image = "web:1";
    http_start_health_check_seconds = pos 10;
    idle_timeout_seconds = pos 300;
    http_health_check_max_failures = pos 1;
    pull_image_on_put = false;
    pull_image_on_start = false;
    reserve_memory_mib = pos 128;
    rest = "";
  };
  rest = "";
}

abbrev web_row : ComponentRow
web_row = next_row (pos 50) (web (pos 0)) none

abbrev components : Keyed ComponentRow
components = ("web", web_row) ∷ []

first_put : put_component no_faults (pos 50) (web (pos 0)) [] ≡ (components, ok (pos 1))
unfolding put_component insert_row with_value lookup insert ◌+ℤ◌
first_put = refl

components-IsVersioned : IsVersioned components
unfolding lookup
components-IsVersioned name row e = ground (arith, e)

put_component_compare_and_set_example :
    put_component no_faults (pos 70) (web (pos 1)) components ≡ (
      if current_version "web" components ==ℤ pos 1
      then (
        insert "web" (next_row (pos 70) (web (pos 1)) (lookup "web" components)) components,
        ok (pos 1 +ℤ pos 1),
      )
      else (
        components,
        err (if pos 1 ==ℤ pos 0 then already_exists else incorrect_previous_version),
      ))
put_component_compare_and_set_example =
    put_component_compare_and_set (pos 70) (web (pos 1)) components components-IsVersioned

put_component_once_example :
    let after = (put_component no_faults (pos 50) (web (pos 0)) []).0 in
    (get_component "web" after ≡ ok (next_component (pos 50) (web (pos 0))))
    × ((name : String) → name ≢ "web" → get_component name after ≡ get_component name [])
    × ((put_component no_faults (pos 60) (web (pos 0)) after).0 ≡ after)
    × ((put_component no_faults (pos 60) (web (pos 0)) after).1
        ≡ err (if pos 0 ==ℤ pos 0 then already_exists else incorrect_previous_version))
unfolding lookup ◌+ℤ◌
put_component_once_example =
    put_component_once (pos 50) (pos 60) (web (pos 0)) (web (pos 0)) []
      (λ name row e. ground (arith, e)) (ap (λ r. r.1) first_put) refl refl (omega arith)

abbrev no_nodes : Keyed NodeStatusRow
no_nodes = []

abbrev node : NodeStatus
node = record {
  node_id = "n1";
  observed_at = pos 9;
  version = pos 1;
  peer_url = "http://n1";
  total_memory_mib = pos 2048;
  load_avg_1m = pos 0;
  started_at = pos 0;
  free_memory_mib = pos 0;
  running_components = [];
}
