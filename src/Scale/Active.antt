-- ===== src/Scale/Active.antt =====
-- The components that take part in scaling, loadActiveComponents of pkg/maelstrom/scale.go, over the pages of
-- the database.
use maelstrom.Prelude.{
  ℕ, ◌<◌, ◌≡◌, refl, ap, sym, ◌∙◌, some-injective, Memᴰ, if-cases, String, Bool, true, false, ◌||◌,
  Option, none, some, List, [], ◌∷◌, map, length, Keyed, lookup, insert, lookup-insert, name_iff,
  ◌=s=◌, if◌then◌else◌, Bool-cases, inl, inr, arith,
}
use maelstrom.Prelude.Int.{pos, ltb_ℤ}
use maelstrom.V1.{Component, NodeStatus, ComponentInfo}
use maelstrom.Db.Rows.{ComponentRow}
use maelstrom.Db.Pages.{empty, all_pages}
use maelstrom.Db.Pages.Complete.{all_pages_complete, read_all-some}

runs : String → List ComponentInfo → Bool
runs name [] = false
runs name (ci ∷ infos) =
    let rest = runs name infos in if ci.component_name =s= name then true else rest

-- The set `activeComponents`.
pub is_active : String → List NodeStatus → Bool
unfolding runs
is_active name [] = false
is_active name (node ∷ nodes) =
    let rest = is_active name nodes in if runs name node.running_components then true else rest

-- The rows of one page, or of all, into the map.
pub add_active : List NodeStatus → List Component → Keyed Component → Keyed Component
add_active nodes [] by_name = by_name
add_active nodes (c ∷ cs) by_name = add_active nodes cs (
    if ltb_ℤ (pos 0) c.min_instances || is_active c.name nodes
    then insert c.name c by_name
    else by_name)

abbrev pub row_json : ComponentRow → Option Component
row_json row = some row.json

pub load_active_components : ℕ → List NodeStatus → List ComponentRow → Option (Keyed Component)
load_active_components fuel nodes rows = elim (all_pages row_json fuel empty (pos 1000) rows) [
  | none ↦ none
  | some cs ↦ some (add_active nodes cs [])
]

abbrev pub takes_part : List NodeStatus → Component → Bool
takes_part nodes c = ltb_ℤ (pos 0) c.min_instances || is_active c.name nodes

module _ (nodes : List NodeStatus) where
  added :
      (d : Component) (name : String) (by_name : Keyed Component)
      → lookup name (insert d.name d by_name)
        ≡ (if d.name =s= name then some d else lookup name by_name)
  added d name by_name = lookup-insert d.name name d by_name

  abbrev Fits : String → Component → Type 0
  Fits name c = (c.name ≡ name) × (takes_part nodes c ≡ true)

  added-Fits :
      (d : Component) (name : String) (by_name : Keyed Component)
      → takes_part nodes d ≡ true
      → ((c : Component) → lookup name by_name ≡ some c → Fits name c)
      → (c : Component) → lookup name (insert d.name d by_name) ≡ some c
      → Fits name c
  added-Fits d name by_name part h c e = elim (Bool-cases (d.name =s= name)) [
    | inl same ↦
        let is_d = some-injective d c (sym (rw same at (added d name by_name)) ∙ e) in
        (
          ap Component.name (sym is_d) ∙ (name_iff d.name name).0 same,
          ap (takes_part nodes) (sym is_d) ∙ part,
        )
    | inr differs ↦ h c (sym (rw differs at (added d name by_name)) ∙ e)
  ]

  add_active-Fits :
      (name : String) (cs : List Component) (by_name : Keyed Component)
      → ((c : Component) → lookup name by_name ≡ some c → Fits name c)
      → (c : Component) → lookup name (add_active nodes cs by_name) ≡ some c
      → Fits name c
  unfolding add_active
  add_active-Fits name [] by_name h = h
  add_active-Fits name (d ∷ cs) by_name h =
      add_active-Fits name cs (if takes_part nodes d then insert d.name d by_name else by_name) (
        if-cases (λ m. (c : Component) → lookup name m ≡ some c → Fits name c) (takes_part nodes d)
          (λ part. added-Fits d name by_name part h) (λ out. h))

  abbrev Has : String → Keyed Component → Type 0
  Has name by_name = (c : Component) × (lookup name by_name ≡ some c)

  added-Has :
      (d : Component) (name : String) (by_name : Keyed Component)
      → Has name by_name
      → Has name (insert d.name d by_name)
  added-Has d name by_name (c, e) = elim (Bool-cases (d.name =s= name)) [
    | inl same ↦ (d, rw same at (added d name by_name))
    | inr differs ↦ (c, rw differs at (added d name by_name) ∙ e)
  ]

  add_active-Has :
      (name : String) (cs : List Component) (by_name : Keyed Component)
      → Has name by_name
      → Has name (add_active nodes cs by_name)
  unfolding add_active
  add_active-Has name [] by_name h = h
  add_active-Has name (d ∷ cs) by_name h =
      add_active-Has name cs (if takes_part nodes d then insert d.name d by_name else by_name)
        (if-cases (Has name) (takes_part nodes d) (λ part. added-Has d name by_name h) (λ out. h))

  add_active-adds :
      (d : Component) (cs : List Component) (by_name : Keyed Component)
      → Memᴰ d cs
      → takes_part nodes d ≡ true
      → Has d.name (add_active nodes cs by_name)
  unfolding add_active
  add_active-adds d [] by_name m part = elim m [ ]
  add_active-adds d (c ∷ cs) by_name (Memᴰ.head e) part =
      add_active-Has d.name cs (if takes_part nodes c then insert c.name c by_name else by_name) (
        rw (sym (ap (takes_part nodes) e) ∙ part) (
          c,
          added c d.name by_name ∙ rw ((name_iff c.name d.name).1 (ap Component.name (sym e))) refl,
        ))
  add_active-adds d (c ∷ cs) by_name (Memᴰ.tail m) part =
      add_active-adds d cs (if takes_part nodes c then insert c.name c by_name else by_name) m part

in_map :
    (row : ComponentRow) (rows : List ComponentRow)
    → Memᴰ row rows
    → Memᴰ row.json (map ComponentRow.json rows)
in_map row [] m = elim m [ ]
in_map row (r ∷ rows) (Memᴰ.head e) = Memᴰ.head (ap ComponentRow.json e)
in_map row (r ∷ rows) (Memᴰ.tail m) = Memᴰ.tail (in_map row rows m)

-- loadActiveComponents reads all pages, within as many as there are rows and one, and its map has
-- exactly the names of the components that have a minimum of instances or run on a node: each entry
-- is of such a component under its name, and each row of such a component has its name in the map.
pub load_active_components_exact :
    (nodes : List NodeStatus) (rows : List ComponentRow) (fuel : ℕ)
    → length rows < fuel
    → (by_name : Keyed Component) × (load_active_components fuel nodes rows ≡ some by_name)
      × ((name : String) (c : Component)
          → lookup name by_name ≡ some c
          → (c.name ≡ name) × (takes_part nodes c ≡ true))
      × ((row : ComponentRow)
          → Memᴰ row rows
          → takes_part nodes row.json ≡ true
          → (c : Component) × (lookup row.json.name by_name ≡ some c))
unfolding load_active_components lookup
load_active_components_exact nodes rows fuel h =
    let cs = map ComponentRow.json rows in
    let read =
      all_pages_complete row_json (pos 1000) rows fuel h ∙ read_all-some ComponentRow.json rows in
    (
      add_active nodes cs [],
      rw (read, load_active_components) refl,
      λ name. add_active-Fits nodes name cs [] (λ c e. absurd (ground (arith, e))),
      λ row m. add_active-adds nodes row.json cs [] (in_map row rows m),
    )
