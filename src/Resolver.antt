-- ===== src/Resolver.antt =====
-- Which component an HTTP request is for, pkg/maelstrom/resolver.go, with the order of event sources of
-- pkg/maelstrom/sort.go.
pub mod Specific
pub mod Cached
pub mod Paged
pub mod Loaded
mod Examples
use Prim.Native.String.{len, slice, find}
use text.Mathlib.Text.{starts_with}
use maelstrom.Prelude.{
  ℕ, ◌≡◌, String, Bool, true, false, ◌&&◌, ◌||◌, not, Option, none, some, List, [], ◌∷◌, Keyed,
  lookup, insert, delete, ltb, ◌==◌, ◌=s=◌, if◌then◌else◌,
}
use maelstrom.Prelude.Int.{ℤ, pos, ◌+ℤ◌, ltb_ℤ}
use maelstrom.V1.{Component, EventSource, HttpEventSource}
use maelstrom.Placement.Best.{sort, name_less}
use maelstrom.Project.{EventSourceWithStatus}
use maelstrom.Db.Rows.{DbResult, ok, err, not_found, failure, EventSourceRow}
use maelstrom.Db.Pages.{Token, empty, number, other}
use maelstrom.Db.Lists.{list_event_sources}
use maelstrom.MaelService.{Change, component_put, component_removed}

-- `httpEventSourcesForResolver`: the most specific first.
http_less_by : HttpEventSource → HttpEventSource → Bool
http_less_by a b =
    if a.hostname =s= "" && not (b.hostname =s= "")
    then false
    else if b.hostname =s= "" && not (a.hostname =s= "")
    then true
    else if len a.path_prefix == len b.path_prefix
    then name_less b.hostname a.hostname
    else ltb (len b.path_prefix) (len a.path_prefix)

pub http_less : EventSource → EventSource → Bool
unfolding http_less_by
http_less a b = elim a.http [
  | none ↦ name_less a.name b.name
  | some h ↦ elim b.http [ none ↦ name_less a.name b.name | some k ↦ http_less_by h k ]
]

pub http_event_source_matches : EventSource → String → String → Bool
http_event_source_matches e hostname path = elim e.http [
  | none ↦ false
  | some h ↦
      if h.hostname =s= "" && h.path_prefix =s= ""
      then false
      else if h.hostname =s= "" && starts_with path h.path_prefix
      then true
      else hostname =s= h.hostname && (h.path_prefix =s= "" || starts_with path h.path_prefix)
]

pub enabled_sources : List EventSourceWithStatus → List EventSource
enabled_sources [] = []
enabled_sources (e ∷ es) =
    let rest = enabled_sources es in if e.enabled then e.event_source ∷ rest else rest

append_sources : List EventSource → Option (List EventSource) → Option (List EventSource)
append_sources [] more = more
append_sources (e ∷ es) more = elim (append_sources es more) [
  | none ↦ none
  | some found ↦ some (e ∷ found)
]

-- The loop over the pages, unsorted. `none` is an error or the end of the fuel.
enabled_pages :
    (String → String → Bool) → ℕ → Token → Keyed EventSourceRow → Option (List EventSource)
unfolding enabled_sources append_sources
enabled_pages like ℕ.zero token t = none
enabled_pages like (ℕ.suc fuel) token t =
    elim (list_event_sources like
      (record {
        name_prefix = "";
        component_name = "";
        project_name = "";
        event_source_type = "http";
        limit = pos 0;
        next_token = token;
      })
      t) [
        | none ↦ none
        | some (sources, next) ↦
            let rest = enabled_pages like fuel next t in
            append_sources (enabled_sources sources)
              (elim next [ empty ↦ some [] | number n ↦ rest | other s ↦ rest ])
      ]

pub all_enabled_http_event_sources :
    (String → String → Bool) → ℕ → Keyed EventSourceRow → Option (List EventSource)
unfolding enabled_pages
all_enabled_http_event_sources like fuel t = elim (enabled_pages like fuel empty t) [
  | none ↦ none
  | some sources ↦ some (sort http_less sources)
]

-- Times are milliseconds.
pub record Resolver : Type 0 where
  pub cache_duration : ℤ
  pub event_sources : Option (List EventSource)
  pub event_sources_expires : ℤ
  pub components_by_name : Keyed Component
  pub components_expires : ℤ

pub new_resolver : ℤ → Resolver
new_resolver cache_duration = record {
  cache_duration = cache_duration;
  event_sources = none;
  event_sources_expires = pos 0;
  components_by_name = [];
  components_expires = pos 0;
}

pub on_component_notification : Change → Resolver → Resolver
on_component_notification (component_put c) r = record r {
  components_by_name = delete c.name r.components_by_name;
  event_sources = none;
}
on_component_notification (component_removed name found) r = record r {
  components_by_name = delete name r.components_by_name;
  event_sources = none;
}

loaded : String → DbResult Component → Resolver → Resolver × DbResult Component
loaded name (ok c) r = (record r { components_by_name = insert name c r.components_by_name }, ok c)
loaded name (err e) r = (r, err e)

renewed_components : ℤ → Resolver → Resolver
renewed_components now r =
    if ltb_ℤ r.components_expires now
    then record r { components_by_name = []; components_expires = now +ℤ r.cache_duration }
    else r

-- `get` is `GetComponent` of the database.
pub by_name : ℤ → (String → DbResult Component) → String → Resolver → Resolver × DbResult Component
unfolding loaded renewed_components
by_name now get name r =
    let fresh = renewed_components now r in
    elim (lookup name fresh.components_by_name) [
      | some c ↦ (fresh, ok c)
      | none ↦ loaded name (get name) fresh
    ]

renewed_sources : ℤ → Resolver → Resolver
renewed_sources now r =
    if ltb_ℤ r.event_sources_expires now
    then record r { event_sources = none; event_sources_expires = now +ℤ r.cache_duration }
    else r

-- `load` is what the database gives, sorted.
pub cached_sources : ℤ → Option (List EventSource) → Resolver → Resolver × Option (List EventSource)
unfolding renewed_sources
cached_sources now load r =
    let fresh = renewed_sources now r in
    elim fresh.event_sources [
      | some sources ↦ (fresh, some sources)
      | none ↦ elim load [
        | none ↦ (fresh, none)
        | some sources ↦ (record fresh { event_sources = some sources }, some sources)
      ]
    ]

pub first_match : String → String → List EventSource → Option EventSource
first_match hostname path [] = none
first_match hostname path (e ∷ es) =
    let rest = first_match hostname path es in
    if http_event_source_matches e hostname path then some e else rest

-- The host without a port.
pub without_port : String → String
without_port host = if ltb (find host ":") (len host) then slice host 0 (find host ":") else host

stripped_path : Option HttpEventSource → String → String
stripped_path none path = path
stripped_path (some h) path =
    if h.strip_prefix && not (h.path_prefix =s= "")
    then slice path (len h.path_prefix) (len path)
    else path

-- The request's header names a component, or is empty; the reply has the path that the request goes on with.
pub by_http_request :
    ℤ
    → (String → DbResult Component)
    → Option (List EventSource)
    → Bool
    → String
    → String
    → String
    → Resolver
    → Resolver × DbResult Component × String
unfolding by_name cached_sources first_match without_port stripped_path
by_http_request now get load public header host path r =
    let (named, by_header) = by_name now get header r in
    let (after, sources) = cached_sources now load r in
    if not public && not (header =s= "") then (named, by_header, path) else elim sources [
      | none ↦ (after, err failure, path)
      | some es ↦ elim (first_match (without_port host) path es) [
        | none ↦ (after, err not_found, path)
        | some e ↦
            let (last, c) = by_name now get e.component_name after in
            (last, c, stripped_path e.http path)
      ]
    ]
