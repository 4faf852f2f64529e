-- ===== src/Registry/Examples.antt =====
-- Two callers that both know the first version of a registry.
use maelstrom.Prelude.{List, [], ◌∷◌, true}
use maelstrom.Prelude.Int.{pos}
use maelstrom.Converge.{ComponentTarget}
use maelstrom.MaelService.{component_removed}
use maelstrom.Registry.{new_registry}
use maelstrom.Registry.Versions.{
  Operation, targets_set, notified, shut_down, accepted_versions, Climbs, accepted_versions-Climbs,
}
use maelstrom.Samples.{web}

abbrev target : ComponentTarget
target = record { component = web; count = pos 1 }

abbrev operations : List Operation
operations =
    targets_set (pos 5) (target ∷ [])
    ∷ targets_set (pos 5) []
    ∷ notified (component_removed "web" true)
    ∷ targets_set (pos 6) (target ∷ [])
    ∷ shut_down
    ∷ []

accepted_versions-Climbs_example :
    Climbs (pos 5) (accepted_versions operations (new_registry (pos 5)))
unfolding new_registry
accepted_versions-Climbs_example = accepted_versions-Climbs operations (new_registry (pos 5))
