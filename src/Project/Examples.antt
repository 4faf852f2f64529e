-- ===== src/Project/Examples.antt =====
-- A project with one component and its event source.
use maelstrom.Prelude.{◌≡◌, false, refl, true, none, some, [], ◌∷◌, All, lookup, insert}
use maelstrom.Prelude.Int.{pos}
use maelstrom.V1.{Component}
use maelstrom.Project.{
  Project, EventSourceWithStatus, components_by_name, sources_by_name, add_sources, diff_project,
}
use maelstrom.Project.Same.{IsOwn, diff_project_same}

abbrev web : Component
web = record {
  name = "shop_web";
  project_name = "shop";
  min_instances = pos 1;
  max_instances = pos 3;
  max_instances_per_node = pos 0;
  max_concurrency = pos 5;
  start_parallelism = "series";
  restart_order = "startstop";
  version = pos 1;
  modified_at = pos 0;
  docker = record {
    image = "web:1";
    http_start_health_check_seconds = pos 10;
    idle_timeout_seconds = pos 60;
    http_health_check_max_failures = pos 1;
    pull_image_on_put = false;
    pull_image_on_start = false;
    reserve_memory_mib = pos 128;
    rest = "";
  };
  rest = "";
}

abbrev hook : EventSourceWithStatus
hook = record {
  event_source = record {
    name = "shop_hook";
    component_name = "shop_web";
    project_name = "shop";
    version = pos 1;
    modified_at = pos 0;
    http = some (record { hostname = ""; path_prefix = "/"; strip_prefix = false });
    cron = none;
    sqs = none;
    awsstepfunc = none;
  };
  enabled = true;
}

abbrev shop : Project
shop = record { component = web; event_sources = hook ∷ [] } ∷ []

shop-IsOwn : All (IsOwn (components_by_name shop []) (sources_by_name shop [])) shop
unfolding components_by_name sources_by_name add_sources lookup insert
shop-IsOwn = ((refl, (refl, tt)), tt)

diff_project_same_example : diff_project shop shop ≡ record {
  component_put = [];
  component_remove = [];
  event_source_put = [];
  event_source_remove = [];
}
diff_project_same_example = diff_project_same shop shop-IsOwn
