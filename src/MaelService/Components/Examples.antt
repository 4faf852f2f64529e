-- ===== src/MaelService/Components/Examples.antt =====
-- A component stored and read again.
use maelstrom.Db.Rows.{put_component}
use maelstrom.Prelude.{◌≡◌, [], refl, lookup, arith}
use maelstrom.Prelude.Int.{pos, ◌+ℤ◌}
use maelstrom.V1.{Component}
use maelstrom.Db.Rows.Components.{IsVersioned, next_component}
use maelstrom.MaelService.{Service, replied, db_put_component}
use maelstrom.MaelService.Names.{trim_space, to_lower}
use maelstrom.MaelService.Names.Valid.{IsName}
use maelstrom.MaelService.Components.{
  serve_put_component, serve_get_component, lowered, validate_component,
}
use maelstrom.MaelService.Components.Outcome.{serve_put_component_stores}
use maelstrom.Samples.{web}

abbrev empty_tables : Service
empty_tables = record { components = []; event_sources = []; calls = []; notices = []; hosts = [] }

abbrev shouted : Component
shouted = record web { name = "Web" }

nothing-IsVersioned : IsVersioned []
unfolding lookup
nothing-IsVersioned name row e = ground (arith, e)

serve_put_component_stores_example :
    ("web" ≡ trim_space (to_lower "Web"))
    × IsName 60 "web"
    × (pos 1 ≡ pos 0 +ℤ pos 1)
    × ((serve_get_component "Web" (serve_put_component shouted empty_tables).0).1
        ≡ replied (next_component (pos 0) (lowered shouted)))
unfolding serve_put_component validate_component to_lower db_put_component put_component lookup ◌+ℤ◌
serve_put_component_stores_example =
    serve_put_component_stores shouted empty_tables "web" (pos 1) nothing-IsVersioned refl
