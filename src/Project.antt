-- ===== src/Project.antt =====
-- The difference of two versions of a project, DiffProject of pkg/maelstrom/project.go.
mod Removes
mod Same
mod Examples
use maelstrom.Prelude.{
  ℕ, ◌+◌, ◌≡◌, String, Bool, true, false, ◌&&◌, not, Option, none, some, List, [], ◌∷◌, ◌++◌, map,
  Keyed, lookup, insert, ◌=s=◌, if◌then◌else◌, ◌==◌,
}
use maelstrom.Prelude.Int.{ℤ, pos, ◌==ℤ◌, pos_part, neg_part}
use maelstrom.V1.{Component, DockerComponent, EventSource, HttpEventSource, CronEventSource}
use maelstrom.Placement.Best.{sort, name_less}

pub record EventSourceWithStatus : Type 0 where
  pub event_source : EventSource
  pub enabled : Bool

pub record ComponentWithEventSources : Type 0 where
  pub component : Component
  pub event_sources : List EventSourceWithStatus

abbrev pub Project : Type 0
Project = List ComponentWithEventSources

pub record ProjectDiff : Type 0 where
  pub component_put : List Component
  pub component_remove : List String
  pub event_source_put : List EventSource
  pub event_source_remove : List String

bool_equal : Bool → Bool → Bool
bool_equal true b = b
bool_equal false b = not b

-- `reflect.DeepEqual`
docker_equal : DockerComponent → DockerComponent → Bool
unfolding bool_equal
docker_equal a b =
    a.image =s= b.image
    && a.http_start_health_check_seconds ==ℤ b.http_start_health_check_seconds
    && a.http_health_check_max_failures ==ℤ b.http_health_check_max_failures
    && a.idle_timeout_seconds ==ℤ b.idle_timeout_seconds
    && bool_equal a.pull_image_on_put b.pull_image_on_put
    && bool_equal a.pull_image_on_start b.pull_image_on_start
    && a.reserve_memory_mib ==ℤ b.reserve_memory_mib
    && a.rest =s= b.rest

component_equal : Component → Component → Bool
unfolding docker_equal
component_equal a b =
    a.name =s= b.name
    && a.project_name =s= b.project_name
    && a.min_instances ==ℤ b.min_instances
    && a.max_instances ==ℤ b.max_instances
    && a.max_instances_per_node ==ℤ b.max_instances_per_node
    && a.max_concurrency ==ℤ b.max_concurrency
    && a.start_parallelism =s= b.start_parallelism
    && a.restart_order =s= b.restart_order
    && a.version ==ℤ b.version
    && a.modified_at ==ℤ b.modified_at
    && docker_equal a.docker b.docker
    && a.rest =s= b.rest

option_equal : {A : Type 0} → (A → A → Bool) → Option A → Option A → Bool
option_equal equal none none = true
option_equal equal none (some t) = false
option_equal equal (some s) none = false
option_equal equal (some s) (some t) = equal s t

http_equal : HttpEventSource → HttpEventSource → Bool
unfolding bool_equal
http_equal a b =
    a.hostname =s= b.hostname
    && a.path_prefix =s= b.path_prefix
    && bool_equal a.strip_prefix b.strip_prefix

cron_equal : CronEventSource → CronEventSource → Bool
cron_equal a b =
    a.schedule =s= b.schedule
    && a.http.method =s= b.http.method
    && a.http.path =s= b.http.path
    && a.http.rest =s= b.http.rest

event_source_equal : EventSourceWithStatus → EventSourceWithStatus → Bool
unfolding option_equal bool_equal http_equal cron_equal
event_source_equal a b =
    a.event_source.name =s= b.event_source.name
    && a.event_source.component_name =s= b.event_source.component_name
    && a.event_source.project_name =s= b.event_source.project_name
    && a.event_source.version ==ℤ b.event_source.version
    && a.event_source.modified_at ==ℤ b.event_source.modified_at
    && option_equal http_equal a.event_source.http b.event_source.http
    && option_equal cron_equal a.event_source.cron b.event_source.cron
    && option_equal ◌=s=◌ a.event_source.sqs b.event_source.sqs
    && option_equal ◌=s=◌ a.event_source.awsstepfunc b.event_source.awsstepfunc
    && bool_equal a.enabled b.enabled

add_sources : List EventSourceWithStatus → Keyed EventSourceWithStatus → Keyed EventSourceWithStatus
add_sources [] by_name = by_name
add_sources (e ∷ es) by_name = add_sources es (insert e.event_source.name e by_name)

pub sources_by_name : Project → Keyed EventSourceWithStatus → Keyed EventSourceWithStatus
unfolding add_sources
sources_by_name [] by_name = by_name
sources_by_name (c ∷ cs) by_name = sources_by_name cs (add_sources c.event_sources by_name)

pub components_by_name : Project → Keyed Component → Keyed Component
components_by_name [] by_name = by_name
components_by_name (c ∷ cs) by_name =
    components_by_name cs (insert c.component.name c.component by_name)

-- The version and time of what is in the database; of an event source that is not, the zero value's.
pub with_old_version : Option EventSourceWithStatus → EventSourceWithStatus → EventSourceWithStatus
with_old_version none e = record e {
  event_source = record e.event_source { version = pos 0; modified_at = pos 0 };
}
with_old_version (some old) e = record e {
  event_source = record e.event_source {
    version = old.event_source.version;
    modified_at = old.event_source.modified_at;
  };
}

is_same : Option EventSourceWithStatus → EventSourceWithStatus → Bool
unfolding event_source_equal
is_same none e = false
is_same (some old) e = event_source_equal old e

-- The event sources to put of a component that is there.
changed_sources : Keyed EventSourceWithStatus → List EventSourceWithStatus → List EventSource
unfolding is_same
changed_sources old [] = []
changed_sources old (e ∷ es) =
    let before = lookup e.event_source.name old in
    let now = with_old_version before e in
    let rest = changed_sources old es in
    if is_same before now then rest else now.event_source ∷ rest

abbrev with_old_component : Component → Component → Component
with_old_component old c = record c { version = old.version; modified_at = old.modified_at }

-- What to put of one component of the new project.
pub puts_of :
    Keyed Component
    → Keyed EventSourceWithStatus
    → ComponentWithEventSources
    → List Component × List EventSource
unfolding changed_sources component_equal
puts_of old_components old_sources c = elim (lookup c.component.name old_components) [
  | none ↦ (c.component ∷ [], map EventSourceWithStatus.event_source c.event_sources)
  | some old ↦ (
    if component_equal old (with_old_component old c.component)
        then []
        else with_old_component old c.component ∷ [],
    changed_sources old_sources c.event_sources,
  )
]

all_puts :
    Keyed Component → Keyed EventSourceWithStatus → Project → List Component × List EventSource
unfolding puts_of
all_puts old_components old_sources [] = ([], [])
all_puts old_components old_sources (c ∷ cs) =
    let (components, sources) = puts_of old_components old_sources c in
    let (more_components, more_sources) = all_puts old_components old_sources cs in
    (components ++ more_components, sources ++ more_sources)

-- The names of the first map that the second does not have.
pub gone : {A : Type 0} → Keyed A → Keyed A → List String
gone [] new = []
gone ((k, v) ∷ old) new =
    let rest = gone old new in elim (lookup k new) [ none ↦ k ∷ rest | some w ↦ rest ]

unfoldable pub diff_project : Project → Project → ProjectDiff
unfolding all_puts gone sources_by_name components_by_name
diff_project old new =
    let old_components = components_by_name old [] in
    let old_sources = sources_by_name old [] in
    let puts = all_puts old_components old_sources new in
    record {
      component_put = puts.0;
      component_remove = sort name_less (gone old_components (components_by_name new []));
      event_source_put = puts.1;
      event_source_remove = sort name_less (gone old_sources (sources_by_name new []));
    }
