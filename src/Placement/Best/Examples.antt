-- ===== src/Placement/Best/Examples.antt =====
-- Two nodes, on the first of which a component runs.
use maelstrom.Prelude.{
  ◌≡◌, ◌⊎◌, refl, String, true, false, some, List, [], ◌∷◌, Memᴰ, Keyed, lookup, insert,
}
use maelstrom.Prelude.Int.{pos, negsuc, ◌+ℤ◌, ◌-ℤ◌, ◌≤ℤ◌}
use maelstrom.V1.{NodeStatus, ComponentInfo}
use maelstrom.Placement.{
  PlacementOption, new_placement_option_for_node, container_count_by_component,
  clone_with_target_delta, ram_used, ram_for_component,
}
use maelstrom.Placement.Counts.{count_of}
use maelstrom.Placement.Memory.{IsUniform}
use maelstrom.Placement.Best.{best_start_component_option, best_stop_component_option}
use maelstrom.Placement.Best.Outcome.{best_start_component_option_fits}

abbrev web : ComponentInfo
web = record {
  component_name = "web";
  component_version = pos 1;
  status = "active";
  max_concurrency = pos 5;
  memory_reserved_mib = pos 128;
  start_time = pos 1;
  last_request_time = pos 2;
}

abbrev node : String → List ComponentInfo → NodeStatus
node id infos = record {
  node_id = id;
  observed_at = pos 9;
  version = pos 1;
  peer_url = id;
  total_memory_mib = pos 512;
  load_avg_1m = pos 0;
  started_at = pos 0;
  free_memory_mib = pos 0;
  running_components = infos;
}

abbrev busy : PlacementOption
busy = new_placement_option_for_node (node "n1" (web ∷ []))

abbrev nodes : Keyed PlacementOption
nodes = ("n1", busy) ∷ ("n2", new_placement_option_for_node (node "n2" [])) ∷ []

abbrev started : PlacementOption
started = record {
  target_node = node "n2" [];
  input = record {
    client_node_id = "";
    target_version = pos 1;
    target_counts =
        record { component_name = "web"; required_memory_mib = pos 128; target_count = pos 1 } ∷ [];
    return_status = true;
  };
}

abbrev stopped : PlacementOption
stopped = clone_with_target_delta "web" (negsuc 0) (pos 128) busy

-- The second node is chosen, where the component does not run.
starts_on_n2 : best_start_component_option nodes "web" (pos 128) (pos 2) false ≡ some started
unfolding best_start_component_option lookup container_count_by_component
    new_placement_option_for_node insert ◌+ℤ◌ ◌-ℤ◌ ram_used clone_with_target_delta
starts_on_n2 = refl

stops_on_n1 : best_stop_component_option nodes "web" ≡ some stopped
unfolding best_stop_component_option lookup container_count_by_component
    new_placement_option_for_node insert ◌+ℤ◌ ◌-ℤ◌ ram_for_component
stops_on_n1 = refl

busy-IsUniform : IsUniform "web" (pos 128) busy
unfolding new_placement_option_for_node
busy-IsUniform = (tt, tt, (λ e. refl, tt))

best_start_component_option_fits_example :
    (k : String) × ((p : PlacementOption) × Memᴰ (k, p) nodes
      × (started.target_node ≡ p.target_node)
      × (count_of "web" started ≡ count_of "web" p +ℤ pos 1)
      × ((pos 2 ≤ℤ pos 0) ⊎ (count_of "web" started ≤ℤ pos 2))
      × (IsUniform "web" (pos 128) p → ram_used started ≤ℤ started.target_node.total_memory_mib))
best_start_component_option_fits_example =
    best_start_component_option_fits nodes "web" (pos 128) (pos 2) started starts_on_n2
