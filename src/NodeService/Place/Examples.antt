-- ===== src/NodeService/Place/Examples.antt =====
-- A placement of a component that a node has already.
use maelstrom.NodeService.Status.{get_nodes}
use maelstrom.Prelude.{[], ◌∷◌, refl, some, none, false, true}
use maelstrom.Prelude.Int.{pos}
use maelstrom.Cluster.{Cluster}
use maelstrom.Db.Rows.{ok}
use maelstrom.NodeService.Place.{Round, place_component_internal, required_ram}
use maelstrom.NodeService.Place.Placed.{PlacedIn, place_component_internal_placed}
use maelstrom.Samples.{web, node_with, running}

abbrev known : Cluster
known = record { my_node_id = "me"; nodes_by_id = ("a", node_with "a" (running "web" ∷ [])) ∷ [] }

abbrev round : Round
round = record {
  get_status = λ node. some node;
  start_stop = λ option. record {
    failed = true;
    version_mismatch = false;
    target_status = none;
    errors = 0;
  };
  component = ok web;
  polls = [];
}

place_component_internal_placed_example :
    PlacedIn "web"
      (required_ram web)
      (pos 0)
      ((round, λ c. c) ∷ [])
      known
      (node_with "a" (running "web" ∷ []))
unfolding place_component_internal get_nodes
place_component_internal_placed_example =
    place_component_internal_placed "web" web ((round, λ c. c) ∷ []) known
      (node_with "a" (running "web" ∷ [])) refl
