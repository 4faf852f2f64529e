-- ===== src/MaelService/Components/Outcome.antt =====
-- What PutComponent stores and tells, pkg/maelstrom/mael_svc.go.
use maelstrom.Prelude.{◌≡◌, inl, inr, refl, sym, ap, ◌∙◌, String, true, [], subst, arith}
use maelstrom.Prelude.Int.{ℤ, pos, ◌+ℤ◌}
use maelstrom.V1.{Component}
use maelstrom.Db.Rows.{DbError, ok, err}
use maelstrom.Db.Rows.Components.{IsVersioned, next_component, put_component-get_component}
use maelstrom.MaelService.{
  Service, Rpc, replied, checked, next_call, quiet_call, db_put_component, db_get_component,
  notify_put_component, transform_put_error, on_error,
}
use maelstrom.MaelService.Names.{to_lower, trim_space, component_name_valid}
use maelstrom.MaelService.Names.Valid.{IsName, name_valid-IsName}
use maelstrom.MaelService.Answers.{and_then-replied, and_then-reply, DbResult-cases}
use maelstrom.MaelService.Components.{
  lowered, validate_component, serve_put_component, serve_get_component,
}

abbrev Stores : Component → ℤ → Service → Type 0
Stores c version s =
    (version ≡ c.version +ℤ pos 1)
    × ((db_get_component c.name (db_put_component c s).0).1 ≡ ok (next_component (pos 0) c))
    × (Service.calls (db_put_component c s).0 ≡ [])

stored :
    (c : Component) (s : Service) (version : ℤ)
    → IsVersioned s.components
    → (db_put_component c (record s { calls = [] })).1 ≡ ok version
    → Stores c version (record s { calls = [] })
unfolding db_put_component db_get_component next_call quiet_call
stored c s version versioned e =
    let (next, found) = put_component-get_component (pos 0) c s.components version versioned e in
    (next, found, refl)

-- A notice does not touch the rows.
notify-get :
    (k name : String) (t : Service)
    → (db_get_component k (notify_put_component name true (record t { calls = [] }))).1
      ≡ (db_get_component k (record t { calls = [] })).1
unfolding notify_put_component db_get_component next_call quiet_call
notify-get k name t = elim (DbResult-cases (db_get_component name (record t { calls = [] })).1) [
  | inl (c, x) ↦ rw (x, notify_put_component) refl
  | inr (d, x) ↦ rw (x, notify_put_component) refl
]

no_reply :
    {A : Type 0} (prefix : String) (e : DbError) (a : A)
    → transform_put_error prefix e ≡ replied a
    → ⊥
unfolding transform_put_error on_error
no_reply prefix DbError.already_exists a e = ground (arith, e)
no_reply prefix DbError.incorrect_previous_version a e = ground (arith, e)
no_reply prefix DbError.not_found a e = ground (arith, e)
no_reply prefix DbError.failure a e = ground (arith, e)

put_step :
    (c : Component) (s : Service) (taken : String) (v : ℤ)
    → validate_component "input.name" (lowered c) ≡ replied taken
    → (db_put_component (lowered c) s).1 ≡ ok v
    → serve_put_component c s
      ≡ (notify_put_component taken true (db_put_component (lowered c) s).0, replied (taken, v))
unfolding serve_put_component
put_step c s taken v valid x =
    and_then-reply (checked (validate_component "input.name" (lowered c)) s) _ taken valid
    ∙ rw x refl

failed_step :
    (c : Component) (s : Service) (taken : String) (d : DbError)
    → validate_component "input.name" (lowered c) ≡ replied taken
    → (db_put_component (lowered c) s).1 ≡ err d
    → (serve_put_component c s).1 ≡ transform_put_error "PutComponent" d
unfolding serve_put_component
failed_step c s taken d valid x =
    ap (λ r. r.1)
      (and_then-reply (checked (validate_component "input.name" (lowered c)) s) _ taken valid)
    ∙ rw x refl

get_step :
    (k : String) (s : Service) (c : Component)
    → (db_get_component (to_lower k) s).1 ≡ ok c
    → (serve_get_component k s).1 ≡ replied c
unfolding serve_get_component
get_step k s c x = rw (x, serve_get_component) refl

abbrev Outcome : Component → Service → String → ℤ → Service → Type 0
Outcome c s name version after =
    (name ≡ trim_space (to_lower c.name))
    × IsName 60 name
    × (version ≡ c.version +ℤ pos 1)
    × ((serve_get_component c.name after).1 ≡ replied (next_component (pos 0) (lowered c)))

stores_under :
    (c : Component) (s : Service) (taken name : String) (version : ℤ)
    → IsVersioned s.components
    → validate_component "input.name" (lowered c) ≡ replied taken
    → (serve_put_component c (record s { calls = [] })).1 ≡ replied (name, version)
    → Outcome c s name version (serve_put_component c (record s { calls = [] })).0
unfolding db_put_component next_call quiet_call validate_component component_name_valid
stores_under c s taken name version versioned valid e =
    let s0 : Service = record s { calls = [] } in
    let put = db_put_component (lowered c) s0 in
    let (trimmed, is_name) = name_valid-IsName "input.name" (to_lower c.name) 60 taken valid in
    elim (DbResult-cases put.1) [
      | inr (d, x) ↦
          let answer : String × ℤ = (name, version) in
          absurd (no_reply "PutComponent" d answer (sym (failed_step c s0 taken d valid x) ∙ e))
      | inl (v, x) ↦
          let (next, found, quiet) = stored (lowered c) s v versioned x in
          let step = put_step c s0 taken v valid x in
          let same : (taken ≡ name) × (v ≡ version) =
            ground (arith, sym (ap (λ r. r.1) step) ∙ e) in
          let got : (serve_get_component c.name (notify_put_component taken true put.0)).1
              ≡ replied (next_component (pos 0) (lowered c)) =
            get_step c.name (notify_put_component taken true put.0)
              (next_component (pos 0) (lowered c))
              (notify-get (to_lower c.name) taken put.0 ∙ found) in
          (
            sym same.0 ∙ trimmed,
            subst (λ n. IsName 60 n) same.0 is_name,
            sym same.1 ∙ next,
            subst
                (λ (r : Service × Rpc (String × ℤ)).
                  (serve_get_component c.name r.0).1 ≡ replied (next_component (pos 0) (lowered c)))
                (sym step) got,
          )
    ]

-- If PutComponent succeeds and no call of the database fails, where the versions stored before are at least 1, the
-- answer is the name without blanks around it, which is a valid name, and the next version; and GetComponent under the
-- name as it was given then gives the component with this version.
pub serve_put_component_stores :
    (c : Component) (s : Service) (name : String) (version : ℤ)
    → IsVersioned s.components
    → (serve_put_component c (record s { calls = [] })).1 ≡ replied (name, version)
    → (name ≡ trim_space (to_lower c.name))
      × IsName 60 name
      × (version ≡ c.version +ℤ pos 1)
      × ((serve_get_component c.name (serve_put_component c (record s { calls = [] })).0).1
          ≡ replied (next_component (pos 0) (lowered c)))
unfolding serve_put_component serve_get_component validate_component component_name_valid
serve_put_component_stores c s name version versioned e =
    let (taken, valid, answer) = and_then-replied _ _ (name, version) e in
    stores_under c s taken name version versioned valid e
