-- ===== src/Db/Rows/Components.antt =====
-- Components in the database: PutComponent is a compare-and-set on the version, RemoveComponent takes
-- the component's event sources with it. pkg/db/sql_db.go.
use maelstrom.Prelude.{
  Bool-cases, ◌≡◌, ◌≢◌, refl, ap, ◌∙◌, String, Bool, true, false, Option, none, some, Keyed, lookup,
  insert, lookup-insert, lookup-delete, DistinctKeys, name_iff, ◌=s=◌, if◌then◌else◌, Option-cases,
  All, if-cases, [], ◌∷◌, inl, inr, arith,
}
use maelstrom.Prelude.Int.{ℤ, pos, ◌+ℤ◌, ◌==ℤ◌, ◌≤ℤ◌, eq_of_parts, +ℤ_parts}
use maelstrom.V1.{Component}
use maelstrom.Db.Rows.{
  ComponentRow, EventSourceRow, Faults, ok, err, no_faults, already_exists,
  incorrect_previous_version, not_found, insert_row, update_row, updated_row, get_row, remove_row,
  delete_where, with_value, put_component, get_component, remove_component,
}

-- The version to put over: 0 where there is no row.
abbrev pub current_version : String → Keyed ComponentRow → ℤ
current_version name t = elim (lookup name t) [ none ↦ pos 0 | some row ↦ row.version ]

abbrev pub next_component : ℤ → Component → Component
next_component now c = record c { version = c.version +ℤ pos 1; modified_at = now }

-- A new row has the component's project; one that is there keeps its own, and the time it was made.
abbrev pub next_row : ℤ → Component → Option ComponentRow → ComponentRow
next_row now c none = record {
  project_name = c.project_name;
  version = pos 1;
  created_at = now;
  modified_at = now;
  json = next_component now c;
}
next_row now c (some old) = record old {
  modified_at = now;
  json = next_component now c;
  version = c.version +ℤ pos 1;
}

-- Stored versions start at 1.
abbrev pub IsVersioned : Keyed ComponentRow → Type 0
IsVersioned t =
    (name : String) (row : ComponentRow) → lookup name t ≡ some row → pos 1 ≤ℤ row.version

-- Where no statement fails and all stored versions are at least 1, PutComponent writes the row and
-- answers the next version exactly if the component's version is that of its row, or 0 without
-- one; otherwise the table stays, and the error says that the row is there if the component's
-- version is 0, and that the previous version is wrong if it is not.
pub put_component_compare_and_set :
    (now : ℤ) (c : Component) (t : Keyed ComponentRow)
    → IsVersioned t
    → put_component no_faults now c t ≡ (
        if current_version c.name t ==ℤ c.version
        then (insert c.name (next_row now c (lookup c.name t)) t, ok (c.version +ℤ pos 1))
        else (t, err (if c.version ==ℤ pos 0 then already_exists else incorrect_previous_version)))
unfolding put_component insert_row update_row updated_row with_value
put_component_compare_and_set now c t versioned = elim (Option-cases (lookup c.name t)) [
  | inl e ↦ ground (arith, e)
  | inr (row, e) ↦ ground (arith, e, versioned c.name row e)
]

accepted_row :
    (now : ℤ) (c : Component) (t : Keyed ComponentRow)
    → IsVersioned t
    → (put_component no_faults now c t).1 ≡ ok (c.version +ℤ pos 1)
    → ((current_version c.name t ==ℤ c.version) ≡ true)
      × ((put_component no_faults now c t).0 ≡ insert c.name (next_row now c (lookup c.name t)) t)
accepted_row now c t versioned accepted =
    ground (arith, put_component_compare_and_set now c t versioned, accepted)

next_row-version :
    (now : ℤ) (c : Component) (t : Keyed ComponentRow)
    → pos 0 ≤ℤ c.version
    → (current_version c.name t ==ℤ c.version) ≡ true
    → (pos 1 ≤ℤ (next_row now c (lookup c.name t)).version)
      × (((next_row now c (lookup c.name t)).version ==ℤ c.version) ≡ false)
next_row-version now c t natural same = elim (Option-cases (lookup c.name t)) [
  | inl e ↦ ground (arith, e, same)
  | inr (row, e) ↦ ground (arith, e, same, +ℤ_parts c.version (pos 1))
]

insert-IsVersioned :
    (name : String) (row : ComponentRow) (t : Keyed ComponentRow)
    → IsVersioned t
    → pos 1 ≤ℤ row.version
    → IsVersioned (insert name row t)
insert-IsVersioned name row t versioned positive =
    λ k found e. ground (arith, e, lookup-insert name k row t, versioned k found)

refused :
    (later : ℤ) (other : Component) (t : Keyed ComponentRow)
    → IsVersioned t
    → (current_version other.name t ==ℤ other.version) ≡ false
    → put_component no_faults later other t
      ≡ (t, err (if other.version ==ℤ pos 0 then already_exists else incorrect_previous_version))
refused later other t versioned different =
    ground (arith, different, put_component_compare_and_set later other t versioned)

refused_again :
    (later : ℤ) (c other : Component) (row : ComponentRow) (t : Keyed ComponentRow)
    → IsVersioned t
    → (pos 1 ≤ℤ row.version) × ((row.version ==ℤ c.version) ≡ false)
    → other.name ≡ c.name
    → other.version ≡ c.version
    → put_component no_faults later other (insert c.name row t) ≡ (
      insert c.name row t,
      err (if c.version ==ℤ pos 0 then already_exists else incorrect_previous_version),
    )
refused_again later c other row t versioned newer same_name same_version =
    refused later other (insert c.name row t) (insert-IsVersioned c.name row t versioned newer.0) (
      ground (
        arith,
        lookup-insert c.name other.name row t,
        same_name,
        same_version,
        newer,
        name_iff c.name other.name,
      ))
    ∙ ap
        (λ (v : ℤ). (
          insert c.name row t,
          err (if v ==ℤ pos 0 then already_exists else incorrect_previous_version),
        ))
        same_version

-- Where no statement fails and all stored versions are at least 1: once PutComponent has accepted a
-- component whose version is not negative, GetComponent of its name gives that component with the next version and the time of
-- the call, other names give what they gave, and a second PutComponent of any component of that
-- name with the same version is refused and changes nothing.
pub put_component_once :
    (now later : ℤ) (c other : Component) (t : Keyed ComponentRow)
    → IsVersioned t
    → (put_component no_faults now c t).1 ≡ ok (c.version +ℤ pos 1)
    → other.name ≡ c.name
    → other.version ≡ c.version
    → pos 0 ≤ℤ c.version
    → let after = (put_component no_faults now c t).0 in
      (get_component c.name after ≡ ok (next_component now c))
      × ((name : String) → name ≢ c.name → get_component name after ≡ get_component name t)
      × ((put_component no_faults later other after).0 ≡ after)
      × ((put_component no_faults later other after).1
          ≡ err (if c.version ==ℤ pos 0 then already_exists else incorrect_previous_version))
unfolding get_component get_row
put_component_once now later c other t versioned accepted same_name same_version natural =
    let accept = accepted_row now c t versioned accepted in
    let row = next_row now c (lookup c.name t) in
    let newer = next_row-version now c t natural accept.0 in
    let again = refused_again later c other row t versioned newer same_name same_version in
    rw (accept.1) (
      ground (arith, lookup-insert c.name c.name row t, name_iff c.name c.name),
      λ name different.
          ground (arith, lookup-insert c.name name row t, name_iff c.name name, different),
      ap (λ r. r.0) again,
      ap (λ r. r.1) again,
    )

-- A stored row is under its name, and its version is in both columns and at least 1.
abbrev pub RowInv : String → ComponentRow → Type 0
RowInv name row = (row.json.name ≡ name) × (row.json.version ≡ row.version) × (pos 1 ≤ℤ row.version)

abbrev pub Stored : Keyed ComponentRow → Type 0
Stored t = (name : String) (row : ComponentRow) → lookup name t ≡ some row → RowInv name row

-- Whichever statements fail, PutComponent of a component whose version is not negative keeps every
-- stored row under the name of its component, with the same version, at least 1, in the column and
-- in the component.
pub put_component_keeps :
    (f : Faults) (now : ℤ) (c : Component) (t : Keyed ComponentRow)
    → pos 0 ≤ℤ c.version
    → Stored t
    → Stored (put_component f now c t).0
unfolding put_component insert_row update_row updated_row with_value
put_component_keeps f now c t natural stored = λ name row e. elim (Option-cases (lookup c.name t)) [
  | inl found ↦ ground (
    arith,
    +ℤ_parts c.version (pos 1),
    eq_of_parts c.version (pos 0),
    eq_of_parts (c.version +ℤ pos 1) (pos 1),
    found,
    e,
    natural,
    stored name row,
    lookup-insert c.name name (next_row now c none) t,
    name_iff c.name name,
  )
  | inr (old, found) ↦ ground (
    arith,
    +ℤ_parts c.version (pos 1),
    eq_of_parts c.version (pos 0),
    eq_of_parts (c.version +ℤ pos 1) (pos 1),
    found,
    e,
    natural,
    stored name row,
    lookup-insert c.name name (next_row now c (some old)) t,
    name_iff c.name name,
  )
]

delete_where-lookup :
    {R : Type 0} (p : R → Bool) (k : String) (t : Keyed R)
    → DistinctKeys t
    → lookup k (delete_where p t)
      ≡ elim (lookup k t) [ none ↦ none | some row ↦ if p row then none else some row ]
unfolding delete_where lookup
delete_where-lookup p k [] d = refl
delete_where-lookup p k ((j, row) ∷ t) d =
    ground (arith, name_iff j k, d, delete_where-lookup p k t d.1)

-- Where neither statement fails and the table of event sources holds each name once, after RemoveComponent there is
-- no component of the name and no event source of it; every other component and every event source
-- of another component is as before; and the reply says whether there was such a component.
pub remove_component_all :
    (name : String) (cs : Keyed ComponentRow) (es : Keyed EventSourceRow)
    → DistinctKeys es
    → let r = remove_component false false name (cs, es) in
      (get_component name (r.0.0) ≡ err not_found)
      × ((k : String) → k ≢ name → get_component k (r.0.0) ≡ get_component k cs)
      × ((k : String)
          → lookup k (r.0.1) ≡ elim (lookup k es) [
            | none ↦ none
            | some row ↦ if row.component_name =s= name then none else some row
          ])
      × (r.1 ≡ ok (elim (lookup name cs) [ none ↦ false | some row ↦ true ]))
unfolding remove_component remove_row get_component get_row
remove_component_all name cs es d = (
  ground (arith, lookup-delete name name cs, name_iff name name),
  λ k different. ground (arith, lookup-delete name k cs, name_iff name k, different),
  λ k. delete_where-lookup (λ row. row.component_name =s= name) k es d,
  refl,
)

-- No component of the name, and no event source of it.
abbrev pub IsRemoved : String → Keyed ComponentRow × Keyed EventSourceRow → Type 0
IsRemoved name (cs, es) =
    (lookup name cs ≡ none) × All (λ entry. (entry.1.component_name =s= name) ≡ false) es

delete_where-All :
    (P : String × EventSourceRow → Type 0) (q : EventSourceRow → Bool) (t : Keyed EventSourceRow)
    → All P t
    → All P (delete_where q t)
unfolding delete_where
delete_where-All P q [] h = tt
delete_where-All P q ((k, row) ∷ t) h =
    if-cases (All P) (q row) (λ e. delete_where-All P q t h.1)
      (λ e. (h.0, delete_where-All P q t h.1))

delete_where-none :
    (q : EventSourceRow → Bool) (t : Keyed EventSourceRow)
    → All (λ entry. q entry.1 ≡ false) (delete_where q t)
unfolding delete_where
delete_where-none q [] = tt
delete_where-none q ((k, row) ∷ t) =
    if-cases (All (λ entry. q entry.1 ≡ false)) (q row) (λ e. delete_where-none q t)
      (λ e. (e, delete_where-none q t))

-- Whichever statement fails, what was removed stays so.
pub remove_component-keeps :
    (delete_fails exec_fails : Bool) (name other : String)
    (t : Keyed ComponentRow × Keyed EventSourceRow)
    → IsRemoved other t
    → IsRemoved other (remove_component delete_fails exec_fails name t).0
unfolding remove_component remove_row
remove_component-keeps true exec_fails name other t h = h
remove_component-keeps false true name other (cs, es) h = (
  h.0,
  delete_where-All (λ entry. (entry.1.component_name =s= other) ≡ false)
      (λ row. row.component_name =s= name) es h.1,
)
remove_component-keeps false false name other (cs, es) h = (
  ground (arith, h.0, lookup-delete name other cs),
  delete_where-All (λ entry. (entry.1.component_name =s= other) ≡ false)
      (λ row. row.component_name =s= name) es h.1,
)

pub remove_component-others :
    (delete_fails exec_fails : Bool) (name other : String)
    (t : Keyed ComponentRow × Keyed EventSourceRow)
    → (name =s= other) ≡ false
    → lookup other (remove_component delete_fails exec_fails name t).0.0 ≡ lookup other t.0
unfolding remove_component remove_row
remove_component-others true exec_fails name other t e = refl
remove_component-others false true name other (cs, es) e = refl
remove_component-others false false name other (cs, es) e =
    ground (arith, e, lookup-delete name other cs)

pub remove_component-removes :
    (delete_fails exec_fails : Bool) (name : String) (t : Keyed ComponentRow × Keyed EventSourceRow)
    (found : Bool)
    → (remove_component delete_fails exec_fails name t).1 ≡ ok found
    → IsRemoved name (remove_component delete_fails exec_fails name t).0
unfolding remove_component remove_row
remove_component-removes true exec_fails name t found e = ground (arith, e)
remove_component-removes false true name t found e = ground (arith, e)
remove_component-removes false false name (cs, es) found e = (
  ground (arith, lookup-delete name name cs, name_iff name name),
  delete_where-none (λ row. row.component_name =s= name) es,
)

pub put_component-get_component :
    (now : ℤ) (c : Component) (t : Keyed ComponentRow) (version : ℤ)
    → IsVersioned t
    → (put_component no_faults now c t).1 ≡ ok version
    → (version ≡ c.version +ℤ pos 1)
      × (get_component c.name (put_component no_faults now c t).0 ≡ ok (next_component now c))
unfolding get_component get_row
put_component-get_component now c t version versioned e =
    let set = put_component_compare_and_set now c t versioned in
    elim (Bool-cases (current_version c.name t ==ℤ c.version)) [
      | inr x ↦ ground (arith, set, x, e)
      | inl x ↦ elim (Option-cases (lookup c.name t)) [
        | inl y ↦ ground (
          arith,
          set,
          x,
          y,
          e,
          name_iff c.name c.name,
          lookup-insert c.name c.name (next_row now c (lookup c.name t)) t,
        )
        | inr (row, y) ↦ ground (
          arith,
          set,
          x,
          y,
          e,
          name_iff c.name c.name,
          lookup-insert c.name c.name (next_row now c (lookup c.name t)) t,
        )
      ]
    ]
