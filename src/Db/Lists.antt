-- ===== src/Db/Lists.antt =====
-- The list queries, ListComponents and ListEventSources of pkg/db/sql_db.go: filter, order and page.
pub mod Whole
use maelstrom.Prelude.{
  String, Bool, true, ◌&&◌, Option, some, List, [], ◌∷◌, Keyed, ◌=s=◌, if◌then◌else◌,
}
use maelstrom.Prelude.Int.{ℤ}
use maelstrom.V1.{Component}
use maelstrom.Placement.Best.{sort, name_less}
use maelstrom.Project.{EventSourceWithStatus}
use maelstrom.Db.Rows.{ComponentRow, EventSourceRow}
use maelstrom.Db.Pages.{Token, select_paginated}

pub record ListComponentsInput : Type 0 where
  pub name_prefix : String
  pub project_name : String
  pub limit : ℤ
  pub next_token : Token

pub record ListEventSourcesInput : Type 0 where
  pub name_prefix : String
  pub component_name : String
  pub project_name : String
  pub event_source_type : String
  pub limit : ℤ
  pub next_token : Token

-- A condition that is left out where its value is empty.
abbrev pub if_given : String → Bool → Bool
if_given value test = if value =s= "" then true else test

-- `order by name` over the rows that `p` selects.
abbrev pub by_name : {R : Type 0} → String × R → String × R → Bool
by_name a b = name_less a.0 b.0

unfoldable pub select_rows : {R : Type 0} → (String → R → Bool) → Keyed R → Keyed R
select_rows p [] = []
select_rows p ((name, row) ∷ t) =
    let rest = select_rows p t in if p name row then (name, row) ∷ rest else rest

abbrev pub component_of : String × ComponentRow → Option Component
component_of (name, row) = some row.json

abbrev pub with_status : String × EventSourceRow → Option EventSourceWithStatus
with_status (name, row) = some (record { event_source = row.json; enabled = row.enabled })

-- `like prefix name` is the database's `name LIKE 'prefix%'`.
module _ (like : String → String → Bool) where
  unfoldable pub component_matches : ListComponentsInput → String → ComponentRow → Bool
  component_matches input name row =
      if_given input.name_prefix (like input.name_prefix name)
      && if_given input.project_name (row.project_name =s= input.project_name)

  unfoldable pub event_source_matches : ListEventSourcesInput → String → EventSourceRow → Bool
  event_source_matches input name row =
      if_given input.name_prefix (like input.name_prefix name)
      && if_given input.component_name (row.component_name =s= input.component_name)
      && if_given input.project_name (row.project_name =s= input.project_name)
      && if_given input.event_source_type (row.event_type =s= input.event_source_type)

  unfoldable pub list_components :
      ListComponentsInput → Keyed ComponentRow → Option (List Component × Token)
  unfolding component_matches select_rows
  list_components input t =
      select_paginated component_of input.next_token input.limit
        (sort by_name (select_rows (component_matches input) t))

  unfoldable pub list_event_sources :
      ListEventSourcesInput → Keyed EventSourceRow → Option (List EventSourceWithStatus × Token)
  unfolding event_source_matches select_rows
  list_event_sources input t =
      select_paginated with_status input.next_token input.limit
        (sort by_name (select_rows (event_source_matches input) t))
