-- ===== src/NodeService/Autoscale/Examples.antt =====
-- A round of which the group that only stops meets an error.
use maelstrom.Scale.{group_options_by_type}
use maelstrom.Prelude.{◌≡◌, String, List, [], ◌∷◌, ◌++◌, refl, none, false, true, lookup, insert}
use maelstrom.Prelude.Int.{ℤ, pos, ◌+ℤ◌}
use maelstrom.Placement.{PlacementOption, scale_up_down_counts}
use maelstrom.NodeService.Autoscale.{answered, failed, Progress, Turn, autoscale}
use maelstrom.NodeService.Autoscale.InTurn.{sent_in_turn, groups_of, autoscale_in_turn}
use maelstrom.Samples.{node_with, running}

abbrev option : String → ℤ → PlacementOption
option node_id count = record {
  target_node = node_with node_id (running "web" ∷ []);
  input = record {
    client_node_id = "me";
    target_version = pos 1;
    target_counts =
        (record { component_name = "web"; required_memory_mib = pos 128; target_count = count })
        ∷ [];
    return_status = true;
  };
}

abbrev inputs : List PlacementOption
inputs = option "b" (pos 0) ∷ option "a" (pos 2) ∷ []

abbrev fine : Turn
fine = record { acquired = true; ask = λ o. answered none }

abbrev broken : Turn
broken = record { acquired = true; ask = λ o. failed }

abbrev before : Progress
before = record { sent = []; cluster = record { my_node_id = "me"; nodes_by_id = [] } }

abbrev after : Progress
after = record before { sent = option "a" (pos 2) ∷ option "b" (pos 0) ∷ [] }

autoscale_in_turn_example :
    (after.sent ≡ [] ++ (sent_in_turn (groups_of fine fine broken inputs)).0)
    × (false ≡ (sent_in_turn (groups_of fine fine broken inputs)).1)
unfolding autoscale group_options_by_type scale_up_down_counts lookup insert ◌+ℤ◌
autoscale_in_turn_example = autoscale_in_turn inputs fine fine broken before after false refl
