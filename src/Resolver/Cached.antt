-- ===== src/Resolver/Cached.antt =====
-- What the resolver's caches give, pkg/maelstrom/resolver.go.
use maelstrom.Prelude.{
  ◌≡◌, inl, inr, String, Option, none, List, lookup, lookup-delete, name_iff, Option-cases, arith,
}
use maelstrom.Prelude.Int.{ℤ}
use maelstrom.V1.{Component, EventSource}
use maelstrom.Db.Rows.{DbResult}
use maelstrom.MaelService.{Change, component_put, component_removed}
use maelstrom.MaelService.Answers.{DbResult-cases}
use maelstrom.Resolver.{
  Resolver, on_component_notification, by_name, loaded, renewed_components, renewed_sources,
  cached_sources,
}

abbrev pub name_of : Change → String
name_of (component_put c) = c.name
name_of (component_removed name found) = name

forgotten :
    (change : Change) (now : ℤ) (r : Resolver)
    → lookup
        (name_of change)
        (Resolver.components_by_name (renewed_components now (on_component_notification change r)))
      ≡ none
unfolding on_component_notification renewed_components lookup
forgotten (component_put c) now r =
    ground (arith, name_iff c.name c.name, lookup-delete c.name c.name r.components_by_name)
forgotten (component_removed name found) now r =
    ground (arith, name_iff name name, lookup-delete name name r.components_by_name)

loads :
    (now : ℤ) (get : String → DbResult Component) (name : String) (r : Resolver)
    → lookup name (Resolver.components_by_name (renewed_components now r)) ≡ none
    → (by_name now get name r).1 ≡ get name
unfolding by_name loaded
loads now get name r e = elim (DbResult-cases (get name)) [
  | inl (c, x) ↦ ground (arith, e, x)
  | inr (d, x) ↦ ground (arith, e, x)
]

no_sources :
    (change : Change) (now : ℤ) (r : Resolver)
    → Resolver.event_sources (renewed_sources now (on_component_notification change r)) ≡ none
unfolding on_component_notification renewed_sources
no_sources (component_put c) now r = ground arith
no_sources (component_removed name found) now r = ground arith

-- After a notification of a component's change both caches are read anew: the component that ByName gives under its
-- name, and the event sources, are what the database gives at that time.
pub read_after_notification :
    (change : Change) (now : ℤ) (get : String → DbResult Component)
    (load : Option (List EventSource)) (r : Resolver)
    → ((by_name now get (name_of change) (on_component_notification change r)).1
        ≡ get (name_of change))
      × ((cached_sources now load (on_component_notification change r)).1 ≡ load)
unfolding cached_sources
read_after_notification change now get load r = (
  loads now get (name_of change) (on_component_notification change r) (forgotten change now r),
  elim (Option-cases load) [
    | inl x ↦ ground (arith, x, no_sources change now r)
    | inr (es, x) ↦ ground (arith, x, no_sources change now r)
  ],
)
