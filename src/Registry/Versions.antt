-- ===== src/Registry/Versions.antt =====
-- Which calls of SetTargets are accepted, pkg/converge/registry.go.
use maelstrom.Prelude.{
  ◌≡◌, refl, true, false, Option, none, some, List, [], ◌∷◌, lookup, inl, inr, if◌then◌else◌,
  Option-cases, Bool-cases, arith, ◌⊎◌, ap, ◌∙◌, subst,
}
use maelstrom.Prelude.Int.{ℤ, pos, ◌+ℤ◌, ◌==ℤ◌, ◌≤ℤ◌, eq_of_parts}
use maelstrom.V1.{Component}
use maelstrom.Converge.{ComponentTarget}
use maelstrom.MaelService.{Change, component_put, component_removed}
use maelstrom.Registry.{
  Registry, set_targets, set_each_target, set_one_target, set_target, by_component,
  on_component_notification, incr_container_id_counter, on_containers_changed, shutdown,
}

-- What happens to a registry.
pub data Operation : Type 0 where
  targets_set : ℤ → List ComponentTarget → Operation
  component_asked : Component → Operation
  notified : Change → Operation
  containers_changed : Operation
  container_created : Operation
  shut_down : Operation

-- The registry afterwards, and the version that a call of SetTargets was accepted with.
pub perform : Operation → Registry → Registry × Option ℤ
perform (targets_set version targets) r =
    let (after, accepted) = set_targets version targets r in
    (after, if accepted then some version else none)
perform (component_asked c) r = ((by_component c r).0, none)
perform (notified change) r = (on_component_notification change r, none)
perform containers_changed r = (on_containers_changed r, none)
perform container_created r = ((incr_container_id_counter r).0, none)
perform shut_down r = (shutdown r, none)

-- The versions accepted over a sequence of operations, the first one first.
pub accepted_versions : List Operation → Registry → List ℤ
unfolding perform
accepted_versions [] r = []
accepted_versions (o ∷ os) r =
    let (after, accepted) = perform o r in
    let rest = accepted_versions os after in
    elim accepted [ none ↦ rest | some version ↦ version ∷ rest ]

set_one_target-version :
    (t : ComponentTarget) (r : Registry) → (set_one_target t r).version ≡ r.version
unfolding set_one_target set_target by_component
set_one_target-version t r = elim (Option-cases (lookup t.component.name r.by_comp_name)) [
  | inl e ↦ rw (e, set_one_target, by_component) refl
  | inr (c, e) ↦ rw (e, set_one_target, by_component) refl
]

set_each_target-version :
    (ts : List ComponentTarget) (r : Registry) → (set_each_target ts r).version ≡ r.version
unfolding set_each_target
set_each_target-version [] r = refl
set_each_target-version (t ∷ ts) r =
    set_each_target-version ts (set_one_target t r) ∙ set_one_target-version t r

by_component-version : (c : Component) (r : Registry) → (by_component c r).0.version ≡ r.version
unfolding by_component
by_component-version c r = elim (Option-cases (lookup c.name r.by_comp_name)) [
  | inl e ↦ rw (e, by_component) refl
  | inr (d, e) ↦ rw (e, by_component) refl
]

notification-version :
    (change : Change) (r : Registry) → (on_component_notification change r).version ≡ r.version
unfolding on_component_notification set_target
notification-version (component_put c) r = elim (Option-cases (lookup c.name r.by_comp_name)) [
  | inl e ↦ rw (e, on_component_notification) refl
  | inr (d, e) ↦ rw (e, on_component_notification) refl
]
notification-version (component_removed name found) r =
    elim (Option-cases (lookup name r.by_comp_name)) [
      | inl e ↦ rw (e, on_component_notification) refl
      | inr (d, e) ↦ rw (e, on_component_notification) refl
    ]

pub set_targets-cases :
    (version : ℤ) (targets : List ComponentTarget) (r : Registry)
    → (version ≡ r.version)
        × ((set_targets version targets r).1 ≡ true)
        × ((set_targets version targets r).0.version ≡ r.version +ℤ pos 1)
      ⊎ ((version ==ℤ r.version) ≡ false) × (set_targets version targets r ≡ (r, false))
unfolding set_targets
set_targets-cases version targets r = elim (Bool-cases (version ==ℤ r.version)) [
  | inl e ↦ inl (
    eq_of_parts version r.version (ground (arith, e)),
    rw (e, set_targets) refl,
    rw (e, set_targets)
        (set_each_target-version targets (record r { version = r.version +ℤ pos 1 })),
  )
  | inr e ↦ inr (e, rw (e, set_targets) refl)
]

perform-version :
    (o : Operation) (r : Registry)
    → ((perform o r).1 ≡ none) × ((perform o r).0.version ≡ r.version)
      ⊎ ((perform o r).1 ≡ some r.version) × ((perform o r).0.version ≡ r.version +ℤ pos 1)
unfolding perform on_containers_changed incr_container_id_counter shutdown
perform-version (targets_set version targets) r = elim (set_targets-cases version targets r) [
  | inl (same, accepted, next) ↦ inr (rw (accepted, perform) (ap some same), next)
  | inr (differs, kept) ↦ inl (rw (kept, perform) refl, rw (kept, perform) refl)
]
perform-version (component_asked c) r = inl (refl, by_component-version c r)
perform-version (notified change) r = inl (refl, notification-version change r)
perform-version containers_changed r = inl (refl, refl)
perform-version container_created r = inl (refl, refl)
perform-version shut_down r = inl (refl, refl)

-- Each version is at least the bound, and the next ones are above it.
abbrev pub Climbs : ℤ → List ℤ → Type 0
Climbs v [] = Unit
Climbs v (w ∷ ws) = (v ≤ℤ w) × Climbs (w +ℤ pos 1) ws

-- Whatever happens to a registry, the versions with which SetTargets is accepted rise strictly from the
-- registry's version on: of the calls that carry the same version at most one is accepted.
pub accepted_versions-Climbs :
    (os : List Operation) (r : Registry) → Climbs r.version (accepted_versions os r)
unfolding accepted_versions
accepted_versions-Climbs [] r = tt
accepted_versions-Climbs (o ∷ os) r =
    let rest = accepted_versions-Climbs os (perform o r).0 in
    elim (perform-version o r) [
      | inl (e, v) ↦
          rw (e, accepted_versions)
            (subst (λ w. Climbs w (accepted_versions os (perform o r).0)) v rest)
      | inr (e, v) ↦
          rw (e, accepted_versions)
            (omega arith, subst (λ w. Climbs w (accepted_versions os (perform o r).0)) v rest)
    ]
