-- ===== src/Scale/Examples.antt =====
-- One component on one node.
use maelstrom.Prelude.{false, ◌≡◌, refl, true, [], ◌∷◌, lookup, ◌/◌}
use maelstrom.Prelude.Int.{ℤ, pos, pos_part, ◌+ℤ◌, ◌*ℤ◌, ◌≤ℤ◌, ltb_ℤ, leb_ℤ}
use maelstrom.V1.{Component, NodeStatus, ComponentTarget}
use maelstrom.Placement.{PlacementOption, clone_with_target_delta, has_target}
use maelstrom.Placement.Counts.{count_of}
use maelstrom.Scale.{merge_option}
use maelstrom.Scale.Target.{
  FloatOps, ScaleTargetInput, calc_scale_target, to_scale_target_input, min_instances, idle_timeout,
  calc_scale_target_bounds, calc_scale_target_awake,
}
use maelstrom.Db.Rows.{ComponentRow}
use maelstrom.Scale.Moves.{merge_option_drops}

-- Whole percents in place of fractions.
abbrev percents : FloatOps
percents = record {
  Float = ℤ;
  of_int = λ n. n;
  add = λ a b. a +ℤ b;
  mul = λ a b. a *ℤ b;
  div = λ a b. pos (pos_part a / pos_part b);
  less = λ a b. ltb_ℤ a b;
  less_eq = λ a b. leb_ℤ a b;
  ceil = λ a. a;
}

abbrev busy_input : ScaleTargetInput percents
busy_input = record {
  infos = (pos 9 ∷ pos 7 ∷ []) ∷ [];
  max_concurrency_per_inst = pos 2;
  min_inst = pos 1;
  max_inst = pos 3;
  scale_down_concur_pct = pos 0;
  scale_up_concur_pct = pos 1;
}

calc_scale_target_bounds_example :
    (pos 1 ≤ℤ calc_scale_target percents busy_input)
    × (pos 1 ≤ℤ pos 3 → pos 1 ≤ℤ pos 3 → calc_scale_target percents busy_input ≤ℤ pos 3)
calc_scale_target_bounds_example = calc_scale_target_bounds percents busy_input

abbrev web : Component
web = record {
  name = "web";
  project_name = "shop";
  min_instances = pos 0;
  max_instances = pos 3;
  max_instances_per_node = pos 0;
  max_concurrency = pos 5;
  start_parallelism = "series";
  restart_order = "startstop";
  version = pos 1;
  modified_at = pos 0;
  docker = record {
    image = "web:1";
    http_start_health_check_seconds = pos 10;
    idle_timeout_seconds = pos 60;
    http_health_check_max_failures = pos 1;
    pull_image_on_put = false;
    pull_image_on_start = false;
    reserve_memory_mib = pos 128;
    rest = "";
  };
  rest = "";
}

calc_scale_target_awake_example :
    let target = calc_scale_target percents (
      to_scale_target_input percents web
        (pos 0)
        (pos 0)
        (pos 0)
        (pos 1)
        (min_instances web (pos 20))
        []) in
    (pos 20 ≤ℤ idle_timeout web → pos 1 ≤ℤ target) × (pos 0 ≤ℤ target)
calc_scale_target_awake_example =
    calc_scale_target_awake percents web (pos 0) (pos 0) (pos 0) (pos 1) (pos 20) []

abbrev target : ℤ → ComponentTarget
target n = record { component_name = "web"; required_memory_mib = pos 128; target_count = n }

abbrev node : NodeStatus
node = record {
  node_id = "n1";
  observed_at = pos 9;
  version = pos 1;
  peer_url = "n1";
  total_memory_mib = pos 512;
  load_avg_1m = pos 0;
  started_at = pos 0;
  free_memory_mib = pos 0;
  running_components = [];
}

abbrev once : PlacementOption
once = record {
  target_node = node;
  input = record {
    client_node_id = "";
    target_version = pos 1;
    target_counts = target (pos 1) ∷ [];
    return_status = true;
  };
}

-- The second start of the component on the node.
merge_option_drops_example :
    count_of "web"
      (merge_option (("n1", once) ∷ []) (clone_with_target_delta "web" (pos 1) (pos 128) once))
    ≡ count_of "web" once
unfolding clone_with_target_delta lookup has_target
merge_option_drops_example =
    merge_option_drops "web" (("n1", once) ∷ [])
      (clone_with_target_delta "web" (pos 1) (pos 128) once) once refl refl refl

abbrev web_row : ComponentRow
web_row = record {
  project_name = "shop";
  version = pos 1;
  created_at = pos 0;
  modified_at = pos 0;
  json = web;
}
