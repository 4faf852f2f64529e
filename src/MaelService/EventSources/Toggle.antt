-- ===== src/MaelService/EventSources/Toggle.antt =====
-- Enabling and disabling event sources, ToggleEventSources of pkg/maelstrom/mael_svc.go: the loop over the
-- pages of the list.
use maelstrom.Prelude.{
  ℕ, zero, suc, String, Bool, true, false, Option, none, some, List, [], ◌∷◌, ◌++◌, if◌then◌else◌,
}
use maelstrom.Prelude.Int.{pos}
use maelstrom.Project.{EventSourceWithStatus}
use maelstrom.Db.Rows.{set_event_sources_enabled}
use maelstrom.Db.Pages.{Token, empty, number, other}
use maelstrom.Db.Lists.{ListEventSourcesInput, list_event_sources}
use maelstrom.MaelService.{Service, Rpc, replied, on_error, next_call}
use maelstrom.MaelService.Names.{to_lower}

pub record ToggleEventSourcesInput : Type 0 where
  pub name_prefix : String
  pub component_name : String
  pub project_name : String
  pub event_source_type : String
  pub enabled : Bool

-- `ess.Enabled != input.Enabled`
pub differs : Bool → Bool → Bool
differs true true = false
differs true false = true
differs false true = true
differs false false = false

pub batch_names : Bool → List EventSourceWithStatus → List String
unfolding differs
batch_names enabled [] = []
batch_names enabled (e ∷ es) =
    let rest = batch_names enabled es in
    if differs e.enabled enabled then e.event_source.name ∷ rest else rest

-- `ListEventSources` of the service.
pub list_input : ToggleEventSourcesInput → Token → ListEventSourcesInput
list_input input token = record {
  name_prefix = to_lower input.name_prefix;
  component_name = to_lower input.component_name;
  project_name = to_lower input.project_name;
  event_source_type = input.event_source_type;
  limit = pos 1000;
  next_token = token;
}

set_enabled : List String → Bool → Service → Service × Bool
unfolding next_call
set_enabled [] enabled s = (s, true)
set_enabled (n ∷ names) enabled s =
    let (call, calls) = next_call s.calls in
    if call.faults.exec_fails then (record s { calls = calls }, false) else (
      record s {
        calls = calls;
        event_sources = (set_event_sources_enabled (n ∷ names) enabled s.event_sources).0;
      },
      true,
    )

listed :
    (String → String → Bool)
    → ListEventSourcesInput
    → Service
    → Service × Option (List EventSourceWithStatus × Token)
unfolding next_call
listed like input s =
    let (call, calls) = next_call s.calls in
    (
      record s { calls = calls },
      if call.faults.exec_fails then none else list_event_sources like input s.event_sources,
    )

-- The names toggled. `none` is the end of the fuel.
pub toggle_event_sources :
    (String → String → Bool)
    → ℕ
    → ToggleEventSourcesInput
    → Token
    → List String
    → Service
    → Option (Service × Rpc (List String))
unfolding batch_names set_enabled listed list_input
toggle_event_sources like zero input token names s = none
toggle_event_sources like (suc fuel) input token names s =
    let (t, page) = listed like (list_input input token) s in
    elim page [
      | none ↦ some (t, on_error "v1.server: db.ListEventSources error")
      | some (sources, next) ↦
          let batch = batch_names input.enabled sources in
          let (u, stored) = set_enabled batch input.enabled t in
          let rest = toggle_event_sources like fuel input next (names ++ batch) u in
          if stored
          then elim next [
            | empty ↦ some (u, replied (names ++ batch))
            | number n ↦ rest
            | other x ↦ rest
          ]
          else some (u, on_error "v1.server: db.SetEventSourceDisabled error")
    ]
