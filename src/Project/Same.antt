-- ===== src/Project/Same.antt =====
-- A project that does not change, DiffProject of pkg/maelstrom/project.go.
use maelstrom.Prelude.{
  ◌≡◌, refl, String, Bool, true, false, Option, none, some, List, [], ◌∷◌, Memᴰ, Keyed, All, lookup,
  name_iff, ◌=s=◌, arith,
}
use maelstrom.V1.{Component, DockerComponent, HttpEventSource, CronEventSource}
use maelstrom.Placement.Best.{sort, name_less}
use maelstrom.Project.{
  Project, EventSourceWithStatus, components_by_name, sources_by_name, gone, diff_project,
  ComponentWithEventSources, option_equal, bool_equal, http_equal, cron_equal, docker_equal,
  component_equal, event_source_equal, changed_sources, is_same, with_old_version, all_puts,
  puts_of,
}
use maelstrom.Project.Removes.{gone_sorted}

same_string : (s : String) → (s =s= s) ≡ true
same_string s = (name_iff s s).1 refl

option_equal_refl :
    {A : Type 0} (equal : A → A → Bool)
    → ((a : A) → equal a a ≡ true)
    → (o : Option A) → option_equal equal o o ≡ true
unfolding option_equal
option_equal_refl equal r none = refl
option_equal_refl equal r (some s) = r s

bool_equal_refl : (b : Bool) → bool_equal b b ≡ true
unfolding bool_equal
bool_equal_refl true = refl
bool_equal_refl false = refl

http_equal_refl : (h : HttpEventSource) → http_equal h h ≡ true
unfolding http_equal
http_equal_refl h =
    ground
      (arith, same_string h.hostname, same_string h.path_prefix, bool_equal_refl h.strip_prefix)

cron_equal_refl : (c : CronEventSource) → cron_equal c c ≡ true
unfolding cron_equal
cron_equal_refl c = ground (
  arith,
  same_string c.schedule,
  same_string c.http.method,
  same_string c.http.path,
  same_string c.http.rest,
)

docker_equal_refl : (d : DockerComponent) → docker_equal d d ≡ true
unfolding docker_equal
docker_equal_refl d = ground (
  arith,
  same_string d.image,
  bool_equal_refl d.pull_image_on_put,
  bool_equal_refl d.pull_image_on_start,
  same_string d.rest,
)

component_equal_refl : (c : Component) → component_equal c c ≡ true
unfolding component_equal
component_equal_refl c = ground (
  arith,
  same_string c.name,
  same_string c.project_name,
  same_string c.start_parallelism,
  same_string c.restart_order,
  docker_equal_refl c.docker,
  same_string c.rest,
)

event_source_equal_refl : (e : EventSourceWithStatus) → event_source_equal e e ≡ true
unfolding event_source_equal
event_source_equal_refl e =
    let es = e.event_source in
    ground (
      arith,
      same_string es.name,
      same_string es.component_name,
      same_string es.project_name,
      option_equal_refl http_equal http_equal_refl es.http,
      option_equal_refl cron_equal cron_equal_refl es.cron,
      option_equal_refl ◌=s=◌ same_string es.sqs,
      option_equal_refl ◌=s=◌ same_string es.awsstepfunc,
      bool_equal_refl e.enabled,
    )

abbrev pub IsOwnSource : Keyed EventSourceWithStatus → EventSourceWithStatus → Type 0
IsOwnSource old e = lookup e.event_source.name old ≡ some e

-- A component and its event sources are what the maps have under their names.
abbrev pub IsOwn :
    Keyed Component → Keyed EventSourceWithStatus → ComponentWithEventSources → Type 0
IsOwn old_components old_sources c =
    (lookup c.component.name old_components ≡ some c.component)
    × All (IsOwnSource old_sources) c.event_sources

unchanged_sources :
    (old : Keyed EventSourceWithStatus) (es : List EventSourceWithStatus)
    → All (IsOwnSource old) es
    → changed_sources old es ≡ []
unfolding changed_sources is_same with_old_version
unchanged_sources old [] own = refl
unchanged_sources old (e ∷ es) own =
    rw (own.0, changed_sources, event_source_equal_refl e) (unchanged_sources old es own.1)

unchanged_one :
    (old_components : Keyed Component) (old_sources : Keyed EventSourceWithStatus)
    (c : ComponentWithEventSources)
    → IsOwn old_components old_sources c
    → puts_of old_components old_sources c ≡ ([], [])
unfolding puts_of
unchanged_one old_components old_sources c own =
    rw
      (
        own.0,
        puts_of,
        component_equal_refl c.component,
        unchanged_sources old_sources c.event_sources own.1,
      )
      refl

unchanged_puts :
    (old_components : Keyed Component) (old_sources : Keyed EventSourceWithStatus)
    (cs : List ComponentWithEventSources)
    → All (IsOwn old_components old_sources) cs
    → all_puts old_components old_sources cs ≡ ([], [])
unfolding all_puts
unchanged_puts old_components old_sources [] own = refl
unchanged_puts old_components old_sources (c ∷ cs) own =
    rw
      (
        unchanged_one old_components old_sources c own.0,
        all_puts,
        unchanged_puts old_components old_sources cs own.1,
      )
      refl

nothing_in : {A : Type 0} (xs : List A) → ((x : A) → ¬ Memᴰ x xs) → xs ≡ []
nothing_in [] none_in = refl
nothing_in (x ∷ xs) none_in = absurd (none_in x (Memᴰ.head refl))

nothing_gone : {A : Type 0} (t : Keyed A) → sort name_less (gone t t) ≡ []
nothing_gone t =
    nothing_in (sort name_less (gone t t))
      (λ k m. let (had, absent) = (gone_sorted k t t).0 m in absurd (ground (arith, had.1, absent)))

-- The difference of a project, in which each component and each event source is what the project
-- has under its name, and that project is empty: nothing is put and nothing is removed.
pub diff_project_same :
    (p : Project)
    → All (IsOwn (components_by_name p []) (sources_by_name p [])) p
    → diff_project p p ≡ record {
      component_put = [];
      component_remove = [];
      event_source_put = [];
      event_source_remove = [];
    }
unfolding diff_project
diff_project_same p own =
    rw
      (
        unchanged_puts (components_by_name p []) (sources_by_name p []) p own,
        diff_project,
        nothing_gone (components_by_name p []),
        nothing_gone (sources_by_name p []),
      )
      refl
