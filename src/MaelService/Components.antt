-- ===== src/MaelService/Components.antt =====
-- The operations on components, pkg/maelstrom/mael_svc.go.
pub mod Outcome
mod Examples
use Prim.Native.String.{◌++◌ as ◌<>◌}
use maelstrom.Prelude.{◌≡◌, String, Bool, true, false}
use maelstrom.Prelude.Int.{ℤ, pos}
use maelstrom.V1.{Component}
use maelstrom.Db.Rows.{
  ok, err, DbError, already_exists, incorrect_previous_version, not_found, failure,
}
use maelstrom.MaelService.{
  Service, Rpc, replied, refused, and_then, checked, on_error, transform_put_error,
  db_put_component, db_get_component, db_remove_component, notify_put_component,
  notify_remove_component,
}
use maelstrom.MaelService.Names.{to_lower, component_name_valid}

unfoldable pub validate_component : String → Component → Rpc String
unfolding component_name_valid
validate_component err_prefix c = component_name_valid err_prefix c.name

-- The names in lower case.
abbrev pub lowered : Component → Component
lowered c = record c { name = to_lower c.name; project_name = to_lower c.project_name }

pub serve_put_component : Component → Service → Service × Rpc (String × ℤ)
unfolding and_then
serve_put_component c s =
    and_then (checked (validate_component "input.name" (lowered c)) s) (λ name t.
      let (u, result) = db_put_component (lowered c) t in
      elim result [
        | ok version ↦ (notify_put_component name true u, replied (name, version))
        | err e ↦ (u, transform_put_error "PutComponent" e)
      ])

missing_component : String → DbError → Rpc Component
missing_component name not_found = refused (pos 1003) ("No Component found with name: " <> name)
missing_component name failure = on_error "v1.server: db.GetComponent error"
missing_component name already_exists = on_error "v1.server: db.GetComponent error"
missing_component name incorrect_previous_version = on_error "v1.server: db.GetComponent error"

pub serve_get_component : String → Service → Service × Rpc Component
unfolding missing_component
serve_get_component name s =
    let (t, result) = db_get_component (to_lower name) s in
    elim result [ ok c ↦ (t, replied c) | err e ↦ (t, missing_component (to_lower name) e) ]

pub serve_remove_component : String → Service → Service × Rpc (String × Bool)
unfolding and_then
serve_remove_component input s =
    and_then (checked (component_name_valid "input.name" (to_lower input)) s) (λ name t.
      let (u, result) = db_remove_component name t in
      elim result [
        | ok found ↦ (notify_remove_component name found true u, replied (name, found))
        | err e ↦ (u, transform_put_error "RemoveComponent" e)
      ])
