-- ===== src/MaelService/Projects.antt =====
-- The operations on projects, pkg/maelstrom/mael_svc.go.
pub mod DryRun
mod Looped
pub mod Removed
mod Examples
use Prim.Native.String.{◌++◌ as ◌<>◌}
use maelstrom.Prelude.{
  ℕ, suc, ◌≡◌, String, Bool, true, false, Option, none, some, List, [], ◌∷◌, ◌++◌, map,
  if◌then◌else◌,
}
use maelstrom.Prelude.Int.{ℤ, pos, ◌==ℤ◌}
use maelstrom.V1.{EventSource, Component}
use maelstrom.Project.{
  EventSourceWithStatus, ComponentWithEventSources, Project, ProjectDiff, diff_project,
}
use maelstrom.Db.Rows.{DbResult, ok, err, failure}
use maelstrom.Db.Pages.{empty}
use maelstrom.Db.Lists.{list_components, list_event_sources}
use maelstrom.MaelService.{
  Service, Rpc, replied, refused, panicked, and_then, rpc_then, checked, on_error, next_call,
  db_put_component, db_remove_component, db_put_event_source, db_remove_event_source,
  notify_put_component, notify_remove_component,
}
use maelstrom.MaelService.Names.{
  to_lower, trim_space, decimal, project_name_valid, ensure_starts_with,
}
use maelstrom.MaelService.Components.{validate_component}
use maelstrom.MaelService.EventSources.{validate_event_source}

-- The project's name, and its components and event sources under names that start with it.
prefixed_source : String → String → EventSourceWithStatus → EventSourceWithStatus
prefixed_source prefix component e = record e {
  event_source = record e.event_source {
    name = ensure_starts_with prefix (to_lower e.event_source.name);
    component_name = component;
  };
}

prefixed : String → ComponentWithEventSources → ComponentWithEventSources
unfolding prefixed_source
prefixed prefix c =
    let name = ensure_starts_with prefix (to_lower c.component.name) in
    record {
      component = record c.component { name = name };
      event_sources = map (prefixed_source prefix name) c.event_sources;
    }

pub with_prefixes : String → Project → Project
unfolding prefixed
with_prefixes name project = map (prefixed (trim_space (to_lower name) <> "_")) project

validate_sources : String → ℕ → List EventSourceWithStatus → Rpc Unit
validate_sources err_prefix y [] = replied tt
validate_sources err_prefix y (e ∷ es) =
    rpc_then
      (validate_event_source (err_prefix <> ".eventSources[" <> decimal y <> "]") e.event_source)
      (λ name. validate_sources err_prefix (suc y) es)

validate_components : String → ℕ → Project → Rpc Unit
unfolding validate_sources
validate_components err_prefix x [] = replied tt
validate_components err_prefix x (c ∷ cs) =
    let at = err_prefix <> ".components[" <> decimal x <> "]" in
    rpc_then (validate_component (at <> ".component") c.component) (λ name.
      rpc_then (validate_sources at 0 c.event_sources)
        (λ u. validate_components err_prefix (suc x) cs))

some_components : String → Project → Rpc Unit
some_components err_prefix [] =
    refused (pos 1001) (err_prefix <> ".components array cannot be empty")
some_components err_prefix (c ∷ cs) = replied tt

pub validate_project : String → String → Project → Rpc String
unfolding validate_components some_components
validate_project err_prefix name project =
    rpc_then (project_name_valid (err_prefix <> ".name") name) (λ valid.
      rpc_then (some_components err_prefix project)
        (λ u. rpc_then (validate_components err_prefix 0 project) (λ v. replied valid)))

-- A page of the database's list, the first thousand rows.
pub db_list : {A : Type 0} → Option A → Service → Service × DbResult A
unfolding next_call
db_list page s =
    let (call, calls) = next_call s.calls in
    (
      record s { calls = calls },
      if call.faults.exec_fails
          then err failure
          else elim page [ none ↦ err failure | some a ↦ ok a ],
    )

pub record PutProjectOutput : Type 0 where
  pub name : String
  pub components_added : List Component
  pub components_updated : List Component
  pub components_removed : List String
  pub event_sources_added : List EventSource
  pub event_sources_updated : List EventSource
  pub event_sources_removed : List String

abbrev pub new_output : String → PutProjectOutput
new_output name = record {
  name = name;
  components_added = [];
  components_updated = [];
  components_removed = [];
  event_sources_added = [];
  event_sources_updated = [];
  event_sources_removed = [];
}

-- One loop of PutProject: each entry is noted in the output, and acted on unless only the difference is
-- asked for.
pub each :
    {A : Type 0}
    → Bool
    → (A → Service → Service × Rpc Unit)
    → (A → PutProjectOutput → PutProjectOutput)
    → List A
    → PutProjectOutput
    → Service
    → Service × Rpc PutProjectOutput
unfolding and_then
each diff_only act note [] out s = (s, replied out)
each diff_only act note (x ∷ xs) out s =
    and_then {A = Unit} (elim diff_only [ true ↦ (s, replied tt) | false ↦ act x s ])
      (λ u t. each diff_only act note xs (note x out) t)

abbrev note_removed_component : String → PutProjectOutput → PutProjectOutput
note_removed_component c out = record out {
  components_removed = out.components_removed ++ (c ∷ []);
}

abbrev note_removed_source : String → PutProjectOutput → PutProjectOutput
note_removed_source e out = record out {
  event_sources_removed = out.event_sources_removed ++ (e ∷ []);
}

abbrev note_component : Component → PutProjectOutput → PutProjectOutput
note_component c out =
    if c.version ==ℤ pos 0
    then record out { components_added = out.components_added ++ (c ∷ []) }
    else record out { components_updated = out.components_updated ++ (c ∷ []) }

abbrev note_source : EventSource → PutProjectOutput → PutProjectOutput
note_source e out =
    if e.version ==ℤ pos 0
    then record out { event_sources_added = out.event_sources_added ++ (e ∷ []) }
    else record out { event_sources_updated = out.event_sources_updated ++ (e ∷ []) }

remove_one_component : String → Service → Service × Rpc Unit
remove_one_component c s =
    let (t, result) = db_remove_component c s in
    elim result [
      | ok found ↦ (notify_remove_component c found true t, replied tt)
      | err e ↦ (t, on_error "RemoveComponent failed")
    ]

remove_one_source : String → Service → Service × Rpc Unit
remove_one_source e s =
    let (t, result) = db_remove_event_source e s in
    elim result [ ok found ↦ (t, replied tt) | err x ↦ (t, on_error "RemoveEventSource failed") ]

put_one_component : Component → Service → Service × Rpc Unit
put_one_component c s =
    let (t, result) = db_put_component c s in
    elim result [
      | ok version ↦ (notify_put_component c.name true t, replied tt)
      | err e ↦ (t, on_error "PutComponent failed")
    ]

put_one_source : EventSource → Service → Service × Rpc Unit
put_one_source e s =
    let (t, result) = db_put_event_source e s in
    elim result [
      | none ↦ (t, panicked)
      | some stored ↦ elim stored [
        | ok version ↦ (t, replied tt)
        | err x ↦ (t, on_error "PutEventSource failed")
      ]
    ]

-- Removals first, then what is put.
pub apply_diff : Bool → ProjectDiff → PutProjectOutput → Service → Service × Rpc PutProjectOutput
unfolding each remove_one_component remove_one_source put_one_component put_one_source
apply_diff diff_only diff out s =
    and_then
      (each diff_only remove_one_component note_removed_component diff.component_remove out s)
      (λ out1 s1.
        and_then
          (each diff_only remove_one_source note_removed_source diff.event_source_remove out1 s1)
          (λ out2 s2.
            and_then (each diff_only put_one_component note_component diff.component_put out2 s2)
              (λ out3 s3. each diff_only put_one_source note_source diff.event_source_put out3 s3)))

pub remove_listed : List Component → Service → Service × Rpc Unit
remove_listed [] s = (s, replied tt)
remove_listed (c ∷ cs) s =
    let (t, result) = db_remove_component c.name s in
    elim result [
      | err e ↦ (t, on_error ("RemoveComponent failed for: " <> c.name))
      | ok found ↦ remove_listed cs (notify_remove_component c.name found true t)
    ]

pub some_listed : List Component → Bool
some_listed [] = false
some_listed (c ∷ cs) = true

-- `like` is the database's `LIKE`, which an empty prefix does not ask.
module _ (like : String → String → Bool) where
  pub listed_components : String → Service → Service × DbResult (List Component)
  unfolding db_list
  listed_components project s =
      let (t, result) =
        db_list
          (list_components like
            (record { name_prefix = ""; project_name = project; limit = pos 0; next_token = empty })
            s.components)
          s in
      elim result [ ok page ↦ (t, ok page.0) | err e ↦ (t, err e) ]

  listed_sources : String → Service → Service × DbResult (List EventSourceWithStatus)
  unfolding db_list
  listed_sources component s =
      let (t, result) =
        db_list
          (list_event_sources like
            (record {
              name_prefix = "";
              component_name = component;
              project_name = "";
              event_source_type = "";
              limit = pos 0;
              next_token = empty;
            })
            s.event_sources)
          s in
      elim result [ ok page ↦ (t, ok page.0) | err e ↦ (t, err e) ]

  with_sources : List Component → Service → Service × Rpc Project
  unfolding and_then listed_sources
  with_sources [] s = (s, replied [])
  with_sources (c ∷ cs) s =
      let (t, result) = listed_sources c.name s in
      elim result [
        | err e ↦ (t, on_error "ListEventSources failed")
        | ok sources ↦
            and_then (with_sources cs t)
              (λ rest u. (u, replied (record { component = c; event_sources = sources } ∷ rest)))
      ]

  pub get_project_internal : String → Service → Service × Rpc Project
  unfolding listed_components with_sources
  get_project_internal name s =
      let (t, result) = listed_components name s in
      elim result [
        | err e ↦ (t, on_error "ListComponents failed")
        | ok components ↦ with_sources components t
      ]

  pub serve_put_project : String → Project → Bool → Service → Service × Rpc PutProjectOutput
  unfolding and_then get_project_internal apply_diff
  serve_put_project input_name components diff_only s =
      let project = with_prefixes input_name components in
      and_then (checked (validate_project "input.project" (to_lower input_name) project) s)
        (λ name t.
          and_then (get_project_internal name t)
            (λ old u. apply_diff diff_only (diff_project old project) (new_output name) u))

  pub serve_get_project : String → Service → Service × Rpc Project
  unfolding and_then get_project_internal
  serve_get_project input_name s =
      and_then (get_project_internal (to_lower input_name) s) (λ project t. elim project [
        | [] ↦ (t, refused (pos 1003) ("No Project found with name: " <> to_lower input_name))
        | c ∷ cs ↦ (t, replied (c ∷ cs))
      ])

  pub serve_remove_project : String → Service → Service × Rpc (String × Bool)
  unfolding and_then listed_components remove_listed some_listed
  serve_remove_project input_name s =
      let (t, result) = listed_components (to_lower input_name) s in
      elim result [
        | err e ↦ (t, on_error "ListComponents failed")
        | ok components ↦
            and_then (remove_listed components t)
              (λ u v. (v, replied (to_lower input_name, some_listed components)))
      ]
