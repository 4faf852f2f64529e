-- ===== src/Registry/Targets.antt =====
-- The targets of the convergers after the registry's operations, pkg/converge/registry.go.
use maelstrom.Prelude.{
  ◌≡◌, refl, ap, ◌∙◌, String, Bool, true, false, Option, none, some, List, [], ◌∷◌, lookup, insert,
  lookup-insert, lookup-delete, ◌=s=◌, if◌then◌else◌, Option-cases, Bool-cases, inl, inr, name_iff,
  arith,
}
use maelstrom.Prelude.Int.{ℤ, pos, ◌+ℤ◌, ◌==ℤ◌}
use maelstrom.Converge.{ComponentTarget}
use maelstrom.Converge.Run.{Converger}
use maelstrom.MaelService.{Change, component_put, component_removed}
use maelstrom.Registry.{
  Registry, set_targets, set_each_target, set_one_target, set_target, by_component, new_converger,
  on_component_notification,
}

abbrev converger_target : Option Converger → Option ComponentTarget
converger_target none = none
converger_target (some c) = some c.current_target

abbrev pub target_of : String → Registry → Option ComponentTarget
target_of name r = converger_target (lookup name r.by_comp_name)

-- The last of the targets with a name, or else what there was before.
abbrev pub last_target :
    String → List ComponentTarget → Option ComponentTarget → Option ComponentTarget
last_target name [] before = before
last_target name (t ∷ ts) before =
    last_target name ts (if t.component.name =s= name then some t else before)

kept_target :
    (b : Bool) (c : Converger) (o : Option Converger)
    → converger_target (if b then some c else o)
      ≡ (if b then some c.current_target else converger_target o)
kept_target true c o = refl
kept_target false c o = refl

if_twice :
    {A : Type 0} (b : Bool) (x y z : A)
    → (if b then x else (if b then y else z)) ≡ (if b then x else z)
if_twice true x y z = refl
if_twice false x y z = refl

target_of-set_one_target :
    (name : String) (t : ComponentTarget) (r : Registry)
    → target_of name (set_one_target t r)
      ≡ (if t.component.name =s= name then some t else target_of name r)
unfolding set_target set_one_target
target_of-set_one_target name t r = elim (Option-cases (lookup t.component.name r.by_comp_name)) [
  | inl e ↦
      let made : ComponentTarget = record { component = t.component; count = pos 0 } in
      rw (e, set_one_target, by_component)
        (ap converger_target (
            lookup-insert t.component.name name (record (new_converger made) { current_target = t })
              (insert t.component.name (new_converger made) r.by_comp_name))
          ∙ kept_target (t.component.name =s= name)
              (record (new_converger made) { current_target = t })
              (lookup name (insert t.component.name (new_converger made) r.by_comp_name))
          ∙ ap (λ o. if t.component.name =s= name then some t else o)
              (ap converger_target
                  (lookup-insert t.component.name name (new_converger made) r.by_comp_name)
                ∙ kept_target (t.component.name =s= name) (new_converger made)
                    (lookup name r.by_comp_name))
          ∙ if_twice (t.component.name =s= name) (some t)
              (some (Converger.current_target (new_converger made))) (target_of name r))
  | inr (c, e) ↦
      rw (e, set_one_target, by_component)
        (ap converger_target
            (lookup-insert t.component.name name (record c { current_target = t }) r.by_comp_name)
          ∙ kept_target (t.component.name =s= name) (record c { current_target = t })
              (lookup name r.by_comp_name))
]

target_of-set_each_target :
    (name : String) (ts : List ComponentTarget) (r : Registry)
    → target_of name (set_each_target ts r) ≡ last_target name ts (target_of name r)
unfolding set_each_target
target_of-set_each_target name [] r = refl
target_of-set_each_target name (t ∷ ts) r =
    target_of-set_each_target name ts (set_one_target t r)
    ∙ ap (last_target name ts) (target_of-set_one_target name t r)

-- SetTargets answers whether the version is the registry's; then each component has the last of the
-- targets given for it and the others keep theirs, and otherwise all keep theirs.
pub set_targets_outcome :
    (version : ℤ) (ts : List ComponentTarget) (r : Registry) (name : String)
    → ((set_targets version ts r).1 ≡ (version ==ℤ r.version))
      × (target_of name (set_targets version ts r).0 ≡ (
          if version ==ℤ r.version
          then last_target name ts (target_of name r)
          else target_of name r))
unfolding set_targets
set_targets_outcome version ts r name = elim (Bool-cases (version ==ℤ r.version)) [
  | inl e ↦ (
    rw (e, set_targets) refl,
    rw (e, set_targets)
        (target_of-set_each_target name ts (record r { version = r.version +ℤ pos 1 })),
  )
  | inr e ↦ (rw (e, set_targets) refl, rw (e, set_targets) refl)
]

-- The target of a component after it was removed from the database or stored anew.
abbrev pub notified_target : Change → String → Option ComponentTarget → Option ComponentTarget
notified_target change name none = none
notified_target (component_removed removed found) name (some t) =
    if removed =s= name then none else some t
notified_target (component_put c) name (some t) =
    if c.name =s= name then some (record t { component = c }) else some t

-- A component removed from the database loses its converger, one stored anew keeps its count under the
-- new component, and no other converger changes or is made.
pub on_component_notification_outcome :
    (change : Change) (r : Registry) (name : String)
    → target_of name (on_component_notification change r)
      ≡ notified_target change name (target_of name r)
unfolding on_component_notification set_target
on_component_notification_outcome (component_removed removed found) r name =
    ground (arith, name_iff removed name, lookup-delete removed name r.by_comp_name)
on_component_notification_outcome (component_put c) r name =
    elim (Option-cases (lookup c.name r.by_comp_name)) [
      | inl e ↦ ground (arith, e, name_iff c.name name)
      | inr (d, e) ↦
          let renewed : Converger = record d {
            current_target = record d.current_target { component = c };
          } in
          ground (arith, e, name_iff c.name name, lookup-insert c.name name renewed r.by_comp_name)
    ]
