-- ===== src/MaelService.antt =====
-- The maelstrom service, pkg/maelstrom/mael_svc.go, over the rows of the database: the state that its
-- operations share and its calls of the database.
pub mod Names
pub mod Answers
pub mod Components
pub mod EventSources
pub mod Projects
use Prim.Native.String.{◌++◌ as ◌<>◌}
use maelstrom.Prelude.{
  ◌≡◌, String, Bool, true, false, Option, none, some, List, [], ◌∷◌, ◌++◌, Keyed, if◌then◌else◌,
}
use maelstrom.Prelude.Int.{ℤ, pos, negsuc}
use maelstrom.V1.{Component, EventSource}
use maelstrom.Db.Rows.{
  ComponentRow, EventSourceRow, DbError, DbResult, ok, err, already_exists,
  incorrect_previous_version, not_found, failure, Faults, put_component, get_component,
  remove_component, put_event_source, get_event_source, remove_event_source,
}

-- The answer of an operation: a value, or a JsonRpcError with its code and message. A panic ends it too.
pub data Rpc (A : Type 0) : Type 0 where
  replied : A → Rpc A
  refused : ℤ → String → Rpc A
  panicked : Rpc A

abbrev pub misc_error : ℤ
misc_error = negsuc 31999

abbrev pub db_error : ℤ
db_error = negsuc 32000

-- What one call of the database meets: which of its statements fail, and the clock.
pub record Call : Type 0 where
  pub faults : Faults
  pub now : ℤ

-- `DataChangedUnion`, with RemoveComponentOutput as the name and whether the component was found.
pub data Change : Type 0 where
  component_put : Component → Change
  component_removed : String → Bool → Change

-- What the subscribers are told, and whether the other nodes are told too.
pub record Notice : Type 0 where
  pub change : Change
  pub broadcast : Bool

-- The tables, what the calls to come will meet, and the notices given so far.
pub record Service : Type 0 where
  pub components : Keyed ComponentRow
  pub event_sources : Keyed EventSourceRow
  pub calls : List Call
  pub notices : List Notice
  pub hosts : List String

-- Where nothing more is foreseen, the calls succeed.
pub quiet_call : Call
quiet_call = record { faults = record { exec_fails = false; count_fails = false }; now = pos 0 }

pub next_call : List Call → Call × List Call
unfolding quiet_call
next_call [] = (quiet_call, [])
next_call (c ∷ cs) = (c, cs)

pub and_then : {A B : Type 0} → Service × Rpc A → (A → Service → Service × Rpc B) → Service × Rpc B
and_then (s, replied a) next = next a s
and_then (s, refused code message) next = (s, refused code message)
and_then (s, panicked) next = (s, panicked)

unfoldable pub rpc_then : {A B : Type 0} → Rpc A → (A → Rpc B) → Rpc B
rpc_then (replied a) next = next a
rpc_then (refused code message) next = refused code message
rpc_then panicked next = panicked

-- A check that does not touch the state.
abbrev pub checked : {A : Type 0} → Rpc A → Service → Service × Rpc A
checked r s = (s, r)

pub db_put_component : Component → Service → Service × DbResult ℤ
unfolding next_call
db_put_component c s =
    let (call, calls) = next_call s.calls in
    let (rows, result) = put_component call.faults call.now c s.components in
    (record s { components = rows; calls = calls }, result)

pub db_get_component : String → Service → Service × DbResult Component
unfolding next_call
db_get_component name s =
    let (call, calls) = next_call s.calls in
    (
      record s { calls = calls },
      if call.faults.exec_fails then err failure else get_component name s.components,
    )

-- The first fault is of the statement on the event sources, the second of the other.
pub db_remove_component : String → Service → Service × DbResult Bool
unfolding next_call
db_remove_component name s =
    let (call, calls) = next_call s.calls in
    let (tables, result) =
      remove_component call.faults.exec_fails call.faults.count_fails name
        (s.components, s.event_sources) in
    (record s { components = tables.0; event_sources = tables.1; calls = calls }, result)

pub db_put_event_source : EventSource → Service → Service × Option (DbResult ℤ)
unfolding next_call
db_put_event_source e s =
    let (call, calls) = next_call s.calls in
    elim (put_event_source call.faults call.now e s.event_sources) [
      | none ↦ (record s { calls = calls }, none)
      | some (rows, result) ↦ (record s { event_sources = rows; calls = calls }, some result)
    ]

pub db_get_event_source : String → Service → Service × DbResult EventSource
unfolding next_call
db_get_event_source name s =
    let (call, calls) = next_call s.calls in
    (
      record s { calls = calls },
      if call.faults.exec_fails then err failure else get_event_source name s.event_sources,
    )

pub db_remove_event_source : String → Service → Service × DbResult Bool
unfolding next_call
db_remove_event_source name s =
    let (call, calls) = next_call s.calls in
    let (rows, result) = remove_event_source call.faults.exec_fails name s.event_sources in
    (record s { event_sources = rows; calls = calls }, result)

pub on_error : {A : Type 0} → String → Rpc A
on_error message = refused db_error message

pub transform_put_error : {A : Type 0} → String → DbError → Rpc A
unfolding on_error
transform_put_error prefix incorrect_previous_version =
    refused (pos 1004) (prefix <> ": previousVersion is incorrect")
transform_put_error prefix already_exists =
    refused (pos 1002) (prefix <> ": already exists with key")
transform_put_error prefix not_found = on_error ("v1.server: transformPutError " <> prefix)
transform_put_error prefix failure = on_error ("v1.server: transformPutError " <> prefix)

-- A component that can no longer be read is not told.
pub notify_put_component : String → Bool → Service → Service
unfolding db_get_component
notify_put_component name broadcast s =
    let (t, found) = db_get_component name s in
    elim found [
      | ok c ↦ record t {
        notices = t.notices ++ (record { change = component_put c; broadcast = broadcast } ∷ []);
      }
      | err e ↦ t
    ]

pub notify_remove_component : String → Bool → Bool → Service → Service
notify_remove_component name found broadcast s = record s {
  notices =
      s.notices ++ (record { change = component_removed name found; broadcast = broadcast } ∷ []);
}

-- `NotifyDataChanged`: another node's changes are told on this node alone.
pub notify_data_changed : List Change → Service → Service
unfolding notify_put_component notify_remove_component
notify_data_changed [] s = s
notify_data_changed (component_put c ∷ changes) s =
    notify_data_changed changes (notify_put_component c.name false s)
notify_data_changed (component_removed name found ∷ changes) s =
    notify_data_changed changes (notify_remove_component name found false s)
