-- ===== src/Pruner/Examples.antt =====
-- The image of a component is stored without a tag, and Docker lists it under the tag latest.
use maelstrom.MaelService.Names.{trim_space}
use maelstrom.Prelude.{true, List, [], ◌∷◌, Memᴰ, refl}
use maelstrom.V1.{Component}
use maelstrom.Pruner.{Image, image_ids_to_delete, run_once}
use maelstrom.Pruner.Kept.{IsUnused, run_once-IsUnused}
use maelstrom.Samples.{web}

abbrev untagged : Component
untagged = record web { docker = record web.docker { image = "web" } }

abbrev images : List Image
images =
    (record { id = "a"; repo_tags = "web:latest" ∷ [] })
    ∷ (record { id = "b"; repo_tags = "db:1" ∷ [] })
    ∷ []

run_once-IsUnused_example : IsUnused ("db:*" ∷ []) ((untagged ∷ []) ∷ []) [] images "a"
unfolding run_once image_ids_to_delete trim_space
run_once-IsUnused_example =
    run_once-IsUnused true ("db:*" ∷ []) [] ((untagged ∷ []) ∷ []) images "a" (Memᴰ.head refl)
