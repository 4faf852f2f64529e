-- ===== src/Db/Rows.antt =====
-- The rows of components, event sources and node states, pkg/db/sql_db.go: one SQL statement is one
-- step. A stored JSON value is the value that it encodes.
pub mod Components
pub mod EventSources
pub mod Nodes
mod Examples
use maelstrom.Prelude.{
  ℕ, zero, suc, ◌+◌, ◌≡◌, String, Bool, true, false, ◌&&◌, Option, none, some, List, [], ◌∷◌,
  length, Keyed, lookup, insert, delete, ltb, ◌==◌, ◌=s=◌, if◌then◌else◌,
}
use maelstrom.Prelude.Int.{ℤ, pos, ◌+ℤ◌, ◌==ℤ◌, ltb_ℤ}
use maelstrom.V1.{Component, EventSource, NodeStatus, get_event_source_type}

pub record ComponentRow : Type 0 where
  pub project_name : String
  pub version : ℤ
  pub created_at : ℤ
  pub modified_at : ℤ
  pub json : Component

pub record EventSourceRow : Type 0 where
  pub component_name : String
  pub project_name : String
  pub event_type : String
  pub version : ℤ
  pub created_at : ℤ
  pub modified_at : ℤ
  pub enabled : Bool
  pub json : EventSource

pub record NodeStatusRow : Type 0 where
  pub observed_at : ℤ
  pub json : NodeStatus

-- The primary key is the name and the version.
pub record StartRow : Type 0 where
  pub name : String
  pub version : ℤ
  pub start_count : ℕ
  pub first_started_at : ℤ
  pub last_started_at : ℤ

pub data DbError : Type 0 where
  already_exists incorrect_previous_version not_found failure : DbError

pub data DbResult (A : Type 0) : Type 0 where
  ok : A → DbResult A
  err : DbError → DbResult A

-- `insertRow`: a refused insert is told apart from another failure by a count.
pub insert_row : {R : Type 0} → Bool → Bool → String → R → Keyed R → Keyed R × DbResult Unit
insert_row exec_fails count_fails name row t = elim (lookup name t) [
  | none ↦ if exec_fails then (t, err failure) else (insert name row t, ok tt)
  | some old ↦ (t, err (if count_fails then failure else already_exists))
]

updated_row : {R : Type 0} → String → R → (R → R) → Keyed R → Bool → Keyed R × DbResult Unit
updated_row name old change t true = (insert name (change old) t, ok tt)
updated_row name old change t false = (t, err incorrect_previous_version)

-- `updateRow`: `version` reads the version column.
pub update_row :
    {R : Type 0} → (R → ℤ) → Bool → String → ℤ → (R → R) → Keyed R → Keyed R × DbResult Unit
unfolding updated_row
update_row version exec_fails name previous change t =
    if exec_fails then (t, err failure) else elim (lookup name t) [
      | none ↦ (t, err incorrect_previous_version)
      | some old ↦ updated_row name old change t (version old ==ℤ previous)
    ]

-- `getRow`, of a table in which `json` reads the JSON column.
pub get_row : {R A : Type 0} → (R → A) → String → Keyed R → DbResult A
get_row json name t = elim (lookup name t) [ none ↦ err not_found | some row ↦ ok (json row) ]

-- `removeRow`: the reply says whether there was a row.
pub remove_row : {R : Type 0} → Bool → String → Keyed R → Keyed R × DbResult Bool
remove_row exec_fails name t =
    if exec_fails
    then (t, err failure)
    else (delete name t, ok (elim (lookup name t) [ none ↦ false | some row ↦ true ]))

-- `delete from t where p`
unfoldable pub delete_where : {R : Type 0} → (R → Bool) → Keyed R → Keyed R
delete_where p [] = []
delete_where p ((k, row) ∷ t) =
    let rest = delete_where p t in if p row then rest else (k, row) ∷ rest

-- `update t set change where p`, and the number of rows affected.
pub update_where : {R : Type 0} → (String → Bool) → (R → R) → Keyed R → Keyed R × ℕ
update_where p change [] = ([], 0)
update_where p change ((k, row) ∷ t) =
    let (rest, n) = update_where p change t in
    if p k then ((k, change row) ∷ rest, suc n) else ((k, row) ∷ rest, n)

-- Which statements fail for another reason than the table's content.
pub record Faults : Type 0 where
  pub exec_fails : Bool
  pub count_fails : Bool

abbrev pub no_faults : Faults
no_faults = record { exec_fails = false; count_fails = false }

pub with_value : {R A : Type 0} → A → Keyed R × DbResult Unit → Keyed R × DbResult A
with_value a (t, ok u) = (t, ok a)
with_value a (t, err e) = (t, err e)

unfoldable pub put_component :
    Faults → ℤ → Component → Keyed ComponentRow → Keyed ComponentRow × DbResult ℤ
unfolding insert_row update_row with_value
put_component f now c t =
    let next = record c { version = c.version +ℤ pos 1; modified_at = now } in
    with_value next.version (
      if c.version ==ℤ pos 0
      then insert_row f.exec_fails f.count_fails c.name
          (record {
            project_name = c.project_name;
            version = pos 1;
            created_at = now;
            modified_at = now;
            json = next;
          })
          t
      else update_row ComponentRow.version f.exec_fails c.name c.version
          (λ old. record old { modified_at = now; json = next; version = next.version }) t)

unfoldable pub get_component : String → Keyed ComponentRow → DbResult Component
unfolding get_row
get_component name t = get_row ComponentRow.json name t

-- Both statements of `RemoveComponent`.
unfoldable pub remove_component :
    Bool
    → Bool
    → String
    → Keyed ComponentRow × Keyed EventSourceRow
    → (Keyed ComponentRow × Keyed EventSourceRow) × DbResult Bool
unfolding remove_row
remove_component delete_fails exec_fails name (cs, es) =
    if delete_fails
    then ((cs, es), err failure)
    else let (after, reply) = remove_row exec_fails name cs in
      ((after, delete_where (λ row. row.component_name =s= name) es), reply)

-- An event source without a kind panics: `none`.
unfoldable pub put_event_source :
    Faults → ℤ → EventSource → Keyed EventSourceRow → Option (Keyed EventSourceRow × DbResult ℤ)
unfolding insert_row update_row with_value
put_event_source f now e t =
    let next = record e { version = e.version +ℤ pos 1; modified_at = now } in
    elim (get_event_source_type next) [
      | none ↦ none
      | some kind ↦ some (
          with_value next.version (
            if e.version ==ℤ pos 0
            then insert_row f.exec_fails f.count_fails e.name
                (record {
                  component_name = e.component_name;
                  project_name = e.project_name;
                  event_type = kind;
                  version = pos 1;
                  created_at = now;
                  modified_at = now;
                  enabled = true;
                  json = next;
                })
                t
            else update_row EventSourceRow.version f.exec_fails e.name e.version
                (λ old. record old {
                  modified_at = now;
                  component_name = e.component_name;
                  event_type = kind;
                  json = next;
                  version = next.version;
                })
                t))
    ]

unfoldable pub get_event_source : String → Keyed EventSourceRow → DbResult EventSource
unfolding get_row
get_event_source name t = get_row EventSourceRow.json name t

pub remove_event_source :
    Bool → String → Keyed EventSourceRow → Keyed EventSourceRow × DbResult Bool
unfolding remove_row
remove_event_source exec_fails name t = remove_row exec_fails name t

one_of : List String → String → Bool
one_of [] name = false
one_of (n ∷ ns) name = let rest = one_of ns name in if n =s= name then true else rest

pub set_event_sources_enabled : List String → Bool → Keyed EventSourceRow → Keyed EventSourceRow × ℕ
unfolding one_of
set_event_sources_enabled names enabled t =
    update_where (one_of names) (λ row. record row { enabled = enabled }) t

-- Which statements of PutNodeStatus fail: the update, the count of the rows that it found, the insert.
pub record StatusFaults : Type 0 where
  pub update_fails : Bool
  pub rows_unknown : Bool
  pub insert_fails : Bool

-- An update, and if it finds no row an insert that on a conflict sets the time alone. `between` is
-- what other writers do between the two.
pub put_node_status :
    StatusFaults
    → (Keyed NodeStatusRow → Keyed NodeStatusRow)
    → NodeStatus
    → Keyed NodeStatusRow
    → Keyed NodeStatusRow × DbResult Unit
put_node_status f between s t =
    let row : NodeStatusRow = record { observed_at = s.observed_at; json = s } in
    if f.update_fails then (t, err failure) else elim (lookup s.node_id t) [
      | some old ↦ (insert s.node_id row t, if f.rows_unknown then err failure else ok tt)
      | none ↦
          let now = between t in
          if f.rows_unknown
          then (t, err failure)
          else if f.insert_fails
          then (now, err failure)
          else (
            elim (lookup s.node_id now) [
              | none ↦ insert s.node_id row now
              | some other ↦ insert s.node_id (record other { observed_at = s.observed_at }) now
            ],
            ok tt,
          )
    ]

-- The reply is the number of rows deleted.
pub remove_node_status_older_than : ℤ → Keyed NodeStatusRow → Keyed NodeStatusRow
remove_node_status_older_than observed_at t =
    delete_where (λ row. ltb_ℤ row.observed_at observed_at) t

pub get_component_deploy_count : String → ℤ → List StartRow → ℕ
get_component_deploy_count name version [] = 0
get_component_deploy_count name version (row ∷ t) =
    let rest = get_component_deploy_count name version t in
    if row.name =s= name && row.version ==ℤ version then row.start_count else rest

pub increment_component_deploy_count : ℤ → String → ℤ → List StartRow → List StartRow
increment_component_deploy_count now name version [] =
    record {
      name = name;
      version = version;
      start_count = 1;
      first_started_at = now;
      last_started_at = now;
    }
    ∷ []
increment_component_deploy_count now name version (row ∷ t) =
    let rest = increment_component_deploy_count now name version t in
    if row.name =s= name && row.version ==ℤ version
    then record row { start_count = row.start_count + 1; last_started_at = now } ∷ t
    else row ∷ rest
