-- ===== src/MaelService/Projects/Examples.antt =====
-- A project of one component, put and removed.
use maelstrom.Placement.Best.{sort}
use maelstrom.Db.Pages.{select_paginated, page_limit}
use maelstrom.Db.Lists.{list_components}
use maelstrom.MaelService.EventSources.{validate_event_source}
use maelstrom.MaelService.Components.{validate_component}
use maelstrom.Prelude.{
  ◌≡◌, ◌≢◌, name_iff, arith, refl, true, false, String, Bool, some, none, [], ◌∷◌, lookup, insert,
}
use maelstrom.Prelude.Int.{pos}
use maelstrom.V1.{Component, EventSource}
use maelstrom.Project.{Project, diff_project}
use maelstrom.Db.Rows.{
  ComponentRow, put_component, get_component, put_event_source, remove_component,
}
use maelstrom.MaelService.{
  Service, replied, rpc_then, db_put_component, db_put_event_source, notify_put_component,
  db_remove_component,
}
use maelstrom.MaelService.Names.{
  to_lower, project_name_valid, ensure_starts_with, event_source_name_valid,
}
use maelstrom.MaelService.Projects.{
  PutProjectOutput, serve_put_project, serve_remove_project, new_output, validate_project,
  with_prefixes,
}
use maelstrom.MaelService.Projects.DryRun.{SameData, serve_put_project_dry_run}
use maelstrom.MaelService.Projects.Looped.{Gone}
use maelstrom.MaelService.Projects.Removed.{IsNamed, serve_remove_project-Gone}

abbrev no_like : String → String → Bool
no_like prefix name = false

abbrev web : Component
web = record {
  name = "web";
  project_name = "shop";
  min_instances = pos 0;
  max_instances = pos 0;
  max_instances_per_node = pos 0;
  max_concurrency = pos 1;
  start_parallelism = "";
  restart_order = "";
  version = pos 0;
  modified_at = pos 0;
  docker = record {
    image = "web:1";
    http_start_health_check_seconds = pos 0;
    http_health_check_max_failures = pos 1;
    idle_timeout_seconds = pos 0;
    pull_image_on_put = false;
    pull_image_on_start = false;
    reserve_memory_mib = pos 128;
    rest = "";
  };
  rest = "";
}

abbrev front : EventSource
front = record {
  name = "front";
  component_name = "web";
  project_name = "shop";
  version = pos 0;
  modified_at = pos 0;
  http = some (record { hostname = ""; path_prefix = "/"; strip_prefix = false });
  cron = none;
  sqs = none;
  awsstepfunc = none;
}

abbrev shop : Project
shop =
    (record {
      component = web;
      event_sources = (record { event_source = front; enabled = true }) ∷ [];
    })
    ∷ []

abbrev no_rows : Service
no_rows = record { components = []; event_sources = []; calls = []; notices = []; hosts = [] }

abbrev put_shop : PutProjectOutput
put_shop = record (new_output "shop") {
  components_added = (record web { name = "shop_web" }) ∷ [];
  event_sources_added = (record front { name = "shop_front"; component_name = "shop_web" }) ∷ [];
}

serve_put_project_dry_run_example :
    ((serve_put_project no_like "Shop" shop true no_rows).1 ≡ replied put_shop)
    × SameData no_rows (serve_put_project no_like "Shop" shop true no_rows).0
unfolding serve_put_project validate_project rpc_then project_name_valid to_lower with_prefixes
    validate_component ensure_starts_with validate_event_source event_source_name_valid
    list_components select_paginated sort diff_project lookup db_put_component put_component
    db_put_event_source notify_put_component insert get_component put_event_source
serve_put_project_dry_run_example =
    serve_put_project_dry_run no_like "Shop" shop no_rows put_shop refl

abbrev row : Component → ComponentRow
row c = record {
  project_name = c.project_name;
  version = pos 1;
  created_at = pos 0;
  modified_at = pos 0;
  json = c;
}

abbrev shop_web : Component
shop_web = record web { name = "shop_web"; version = pos 1 }

abbrev blog_web : Component
blog_web = record web { name = "blog_web"; project_name = "blog"; version = pos 1 }

abbrev two_projects : Service
two_projects = record no_rows {
  components = ("shop_web", row shop_web) ∷ ("blog_web", row blog_web) ∷ [];
}

two_projects-IsNamed : IsNamed two_projects.components
unfolding lookup
two_projects-IsNamed name r e =
    ground (arith, e, name_iff "shop_web" name, name_iff "blog_web" name)

serve_remove_project-Gone_example :
    let after = (serve_remove_project no_like "Shop" two_projects).0 in
    ((row shop_web).project_name ≡ to_lower "Shop" → Gone "shop_web" after)
    × ((row shop_web).project_name ≢ to_lower "Shop"
        → lookup "shop_web" after.components ≡ some (row shop_web))
unfolding serve_remove_project list_components select_paginated sort to_lower page_limit
    db_remove_component remove_component lookup
serve_remove_project-Gone_example =
    serve_remove_project-Gone no_like "Shop" two_projects ("shop", true) "shop_web" (row shop_web)
      (refl, (refl, tt)) two_projects-IsNamed (λ e. ground (arith, (name_iff "shop" "").1 e))
      (omega arith) refl refl
