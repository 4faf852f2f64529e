-- ===== src/MaelService/EventSources.antt =====
-- The operations on event sources, pkg/maelstrom/mael_svc.go.
pub mod Toggle
pub mod Kinds
mod Examples
use Prim.Native.String.{◌++◌ as ◌<>◌}
use maelstrom.Prelude.{
  ◌≡◌, String, Bool, true, false, ◌&&◌, Option, none, some, List, [], ◌∷◌, ◌++◌, ◌=s=◌,
  if◌then◌else◌,
}
use maelstrom.Prelude.Int.{ℤ, pos}
use maelstrom.V1.{EventSource, HttpEventSource, CronEventSource, Component}
use maelstrom.Db.Rows.{
  DbResult, DbError, ok, err, already_exists, incorrect_previous_version, not_found, failure,
}
use maelstrom.MaelService.{
  Service, Rpc, replied, refused, panicked, and_then, checked, rpc_then, on_error,
  transform_put_error, db_put_event_source, db_get_event_source, db_remove_event_source,
  db_get_component,
}
use maelstrom.MaelService.Names.{to_lower, component_name_valid, event_source_name_valid}

is_nil : {A : Type 0} → Option A → Bool
is_nil none = true
is_nil (some a) = false

-- The checks of each kind of event source: what they refuse with.
http_fault : String → Option HttpEventSource → Option String
http_fault err_prefix none = none
http_fault err_prefix (some h) =
    if h.hostname =s= "" && h.path_prefix =s= ""
    then some (err_prefix <> " http.hostname or http.pathPrefix must be provided")
    else none

cron_fault : String → Option CronEventSource → Option String
cron_fault err_prefix none = none
cron_fault err_prefix (some c) =
    if c.http.method =s= ""
    then some (err_prefix <> " cron.http.method must be provided")
    else if c.http.path =s= ""
    then some (err_prefix <> " cron.http.path must be provided")
    else none

refused_if : Option String → Rpc String → Rpc String
refused_if none r = r
refused_if (some message) r = refused (pos 1001) message

unfoldable pub validate_event_source : String → EventSource → Rpc String
unfolding is_nil http_fault cron_fault refused_if
validate_event_source err_prefix e =
    rpc_then (event_source_name_valid (err_prefix <> ".name") e.name) (λ name.
      rpc_then (component_name_valid (err_prefix <> ".componentName") e.component_name)
        (λ component.
          if is_nil e.http && is_nil e.cron && is_nil e.sqs && is_nil e.awsstepfunc
          then refused (pos 1001) "No event source sub-type provided (e.g. http)"
          else refused_if (http_fault err_prefix e.http)
              (refused_if (cron_fault err_prefix e.cron) (replied name))))

-- The names in lower case.
abbrev pub lowered : EventSource → EventSource
lowered e = record e { name = to_lower e.name; component_name = to_lower e.component_name }

-- The project of the component that was read; another error than a missing row is passed over, with the
-- project of the zero component.
component_project : DbResult Component → Option String
component_project (ok c) = some c.project_name
component_project (err not_found) = none
component_project (err failure) = some ""
component_project (err already_exists) = some ""
component_project (err incorrect_previous_version) = some ""

-- The host whose certificate is needed, where certificates are managed.
add_host : Bool → Option HttpEventSource → List String → List String
add_host manages none hosts = hosts
add_host manages (some h) hosts = if manages then hosts ++ (h.hostname ∷ []) else hosts

stored_event_source :
    Bool → String → EventSource → Service × Option (DbResult ℤ) → Service × Rpc (String × ℤ)
unfolding add_host
stored_event_source manages name e (s, none) = (s, panicked)
stored_event_source manages name e (s, some (err x)) = (s, transform_put_error "PutEventSource" x)
stored_event_source manages name e (s, some (ok version)) =
    (record s { hosts = add_host manages e.http s.hosts }, replied (name, version))

pub serve_put_event_source : Bool → EventSource → Service → Service × Rpc (String × ℤ)
unfolding and_then component_project stored_event_source
serve_put_event_source manages input s =
    let e = lowered input in
    and_then (checked (validate_event_source "input.eventSource" e) s) (λ name t.
      let (u, component) = db_get_component e.component_name t in
      elim (component_project component) [
        | none ↦ (u, refused (pos 1003) ("eventSource.component not found: " <> e.component_name))
        | some project ↦
            let named = record e { name = name; project_name = project } in
            stored_event_source manages name named (db_put_event_source named u)
      ])

missing_event_source : String → DbError → Rpc EventSource
missing_event_source name not_found =
    refused (pos 1003) ("No event source found with name: " <> name)
missing_event_source name failure = on_error "v1.server: db.GetEventSource error"
missing_event_source name already_exists = on_error "v1.server: db.GetEventSource error"
missing_event_source name incorrect_previous_version = on_error "v1.server: db.GetEventSource error"

pub serve_get_event_source : String → Service → Service × Rpc EventSource
unfolding missing_event_source
serve_get_event_source name s =
    let (t, result) = db_get_event_source (to_lower name) s in
    elim result [ ok e ↦ (t, replied e) | err x ↦ (t, missing_event_source (to_lower name) x) ]

-- The database's error is passed on as it is; it has no code of the service.
pub serve_remove_event_source : String → Service → Service × Rpc (DbResult (String × Bool))
unfolding and_then
serve_remove_event_source input s =
    and_then (checked (event_source_name_valid "input.name" (to_lower input)) s) (λ name t.
      let (u, result) = db_remove_event_source name t in
      elim result [ ok found ↦ (u, replied (ok (name, found))) | err x ↦ (u, replied (err x)) ])
