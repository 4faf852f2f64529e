-- ===== src/MaelService/Projects/Looped.antt =====
-- The loop of RemoveProject over the components that it listed, pkg/maelstrom/mael_svc.go.
use maelstrom.Prelude.{
  ◌≡◌, inl, inr, refl, sym, ap, ◌∙◌, String, Bool, true, false, List, [], ◌∷◌, All, subst, lookup,
  ◌=s=◌, arith,
}
use maelstrom.V1.{Component}
use maelstrom.Db.Rows.{ok}
use maelstrom.Db.Rows.Components.{
  IsRemoved, remove_component-keeps, remove_component-removes, remove_component-others,
}
use maelstrom.MaelService.{
  Service, replied, db_remove_component, notify_remove_component, next_call, on_error,
}
use maelstrom.MaelService.Projects.{remove_listed}
use maelstrom.MaelService.Answers.{DbResult-cases}

abbrev pub Gone : String → Service → Type 0
Gone name s = IsRemoved name (s.components, s.event_sources)

db_remove_component-keeps :
    (name other : String) (s : Service) → Gone other s → Gone other (db_remove_component name s).0
unfolding db_remove_component
db_remove_component-keeps name other s h =
    let call = (next_call s.calls).0 in
    remove_component-keeps call.faults.exec_fails call.faults.count_fails name other
      (s.components, s.event_sources) h

db_remove_component-removes :
    (name : String) (s : Service) (found : Bool)
    → (db_remove_component name s).1 ≡ ok found
    → Gone name (db_remove_component name s).0
unfolding db_remove_component
db_remove_component-removes name s found e =
    let call = (next_call s.calls).0 in
    remove_component-removes call.faults.exec_fails call.faults.count_fails name
      (s.components, s.event_sources) found e

notify-Gone :
    (name other : String) (found broadcast : Bool) (s : Service)
    → Gone other s
    → Gone other (notify_remove_component name found broadcast s)
unfolding notify_remove_component
notify-Gone name other found broadcast s h = h

remove_listed-keeps :
    (other : String) (cs : List Component) (s : Service)
    → Gone other s
    → Gone other (remove_listed cs s).0
unfolding remove_listed
remove_listed-keeps other [] s h = h
remove_listed-keeps other (c ∷ cs) s h =
    let first = db_remove_component c.name s in
    let at = db_remove_component-keeps c.name other s h in
    elim (DbResult-cases first.1) [
      | inr (e, x) ↦ rw (x, remove_listed) at
      | inl (found, x) ↦
          let told = notify_remove_component c.name found true first.0 in
          rw (x, remove_listed)
            (remove_listed-keeps other cs told (notify-Gone c.name other found true first.0 at))
    ]

pub remove_listed-Gone :
    (cs : List Component) (s : Service) (u : Unit {0})
    → (remove_listed cs s).1 ≡ replied u
    → All (λ c. Gone (Component.name c) (remove_listed cs s).0) cs
unfolding remove_listed on_error
remove_listed-Gone [] s u e = tt
remove_listed-Gone (c ∷ cs) s u e =
    let first = db_remove_component c.name s in
    elim (DbResult-cases first.1) [
      | inr (d, x) ↦ ground (arith, x, e)
      | inl (found, x) ↦
          let told = notify_remove_component c.name found true first.0 in
          let gone =
            notify-Gone c.name c.name found true first.0
              (db_remove_component-removes c.name s found x) in
          let step : remove_listed (c ∷ cs) s ≡ remove_listed cs told =
            rw (x, remove_listed) refl in
          subst (λ r. All (λ d. Gone (Component.name d) r.0) (c ∷ cs)) (sym step)
            (
              remove_listed-keeps c.name cs told gone,
              remove_listed-Gone cs told u (ap (λ r. r.1) (sym step) ∙ e),
            )
    ]

db_remove_component-others :
    (name other : String) (s : Service)
    → (name =s= other) ≡ false
    → lookup other (db_remove_component name s).0.components ≡ lookup other s.components
unfolding db_remove_component
db_remove_component-others name other s e =
    let call = (next_call s.calls).0 in
    remove_component-others call.faults.exec_fails call.faults.count_fails name other
      (s.components, s.event_sources) e

notify-others :
    (name other : String) (found broadcast : Bool) (s : Service)
    → lookup other (notify_remove_component name found broadcast s).components
      ≡ lookup other s.components
unfolding notify_remove_component
notify-others name other found broadcast s = refl

pub remove_listed-others :
    (other : String) (cs : List Component) (s : Service)
    → All (λ c. (Component.name c =s= other) ≡ false) cs
    → lookup other (remove_listed cs s).0.components ≡ lookup other s.components
unfolding remove_listed
remove_listed-others other [] s h = refl
remove_listed-others other (c ∷ cs) s h =
    let first = db_remove_component c.name s in
    let at = db_remove_component-others c.name other s h.0 in
    elim (DbResult-cases first.1) [
      | inr (e, x) ↦ rw (x, remove_listed) at
      | inl (found, x) ↦
          let told = notify_remove_component c.name found true first.0 in
          rw (x, remove_listed)
            (remove_listed-others other cs told h.1
              ∙ notify-others c.name other found true first.0
              ∙ at)
    ]
