-- ===== src/MaelService/Projects/Removed.antt =====
-- What RemoveProject leaves, pkg/maelstrom/mael_svc.go.
use maelstrom.Prelude.{
  some-injective, ℕ, ◌+◌, ◌≤◌, ◌≡◌, ◌≢◌, inl, inr, refl, sym, ap, ◌∙◌, String, Bool, false, some,
  List, [], ◌∷◌, map, All, All-Mem, All-map, Mem-All, Memᴰ, Memᴰ-map, subst, length, Keyed, lookup,
  DistinctKeys, lookup-Memᴰ, Memᴰ-lookup, name_iff, ◌=s=◌, if◌then◌else◌, Bool-cases, arith,
}
use maelstrom.Prelude.Int.{pos}
use maelstrom.V1.{Component}
use maelstrom.Placement.Best.Sorting.{sort-Memᴰ, sort-keeps}
use maelstrom.Db.Rows.{ComponentRow, ok}
use maelstrom.Db.Pages.{empty}
use maelstrom.Db.Lists.{
  ListComponentsInput, list_components, component_matches, select_rows, by_name,
}
use maelstrom.Db.Lists.Whole.{
  matching, stored_component, list_components-whole, select_rows-Memᴰ, select_rows-keeps,
  length-sort,
}
use maelstrom.MaelService.{Service, Rpc, replied, and_then, on_error}
use maelstrom.MaelService.Names.{to_lower}
use maelstrom.MaelService.Projects.{
  db_list, listed_components, remove_listed, serve_remove_project, some_listed,
}
use maelstrom.MaelService.Projects.Looped.{Gone, remove_listed-Gone, remove_listed-others}
use maelstrom.MaelService.Answers.{and_then-replied, and_then-reply, DbResult-cases}

-- Each component is stored under its own name.
abbrev pub IsNamed : Keyed ComponentRow → Type 0
IsNamed t = (name : String) (row : ComponentRow) → lookup name t ≡ some row → row.json.name ≡ name

abbrev pub count_project : String → Keyed ComponentRow → ℕ
count_project project [] = 0
count_project project ((name, row) ∷ t) =
    (if row.project_name =s= project then 1 else 0) + count_project project t

abbrev of_project : String → ListComponentsInput
of_project project = record {
  name_prefix = "";
  project_name = project;
  limit = pos 0;
  next_token = empty;
}

module _ (like : String → String → Bool) (project : String) (named : (project =s= "") ≡ false) where
  abbrev project_rows : Keyed ComponentRow → Keyed ComponentRow
  project_rows t = matching like (of_project project) t

  component_matches-project :
      (name : String) (row : ComponentRow)
      → component_matches like (of_project project) name row ≡ (row.project_name =s= project)
  unfolding component_matches
  component_matches-project name row = ground (arith, named)

  select_rows-count_project :
      (t : Keyed ComponentRow)
      → length (select_rows (component_matches like (of_project project)) t)
        ≡ count_project project t
  unfolding select_rows
  select_rows-count_project [] = refl
  select_rows-count_project ((name, row) ∷ t) =
      ground (arith, component_matches-project name row, select_rows-count_project t)

  length-project_rows : (t : Keyed ComponentRow) → length (project_rows t) ≡ count_project project t
  length-project_rows t =
      length-sort by_name (select_rows (component_matches like (of_project project)) t)
      ∙ select_rows-count_project t

  project_rows-Memᴰ :
      (q : String × ComponentRow) (t : Keyed ComponentRow)
      → Memᴰ q (project_rows t)
      → Memᴰ q t × (q.1.project_name ≡ project)
  project_rows-Memᴰ q t m =
      let (member, chosen) =
        select_rows-Memᴰ (component_matches like (of_project project)) q t
          (sort-Memᴰ by_name q (select_rows (component_matches like (of_project project)) t) m) in
      (
        member,
        (name_iff q.1.project_name project).0 (sym (component_matches-project q.0 q.1) ∙ chosen),
      )

  project_rows-keeps :
      (q : String × ComponentRow) (t : Keyed ComponentRow)
      → Memᴰ q t
      → q.1.project_name ≡ project
      → Memᴰ q (project_rows t)
  project_rows-keeps q t m own =
      sort-keeps by_name q (select_rows (component_matches like (of_project project)) t) (
        select_rows-keeps (component_matches like (of_project project)) q t m
          (component_matches-project q.0 q.1 ∙ (name_iff q.1.project_name project).1 own))

  listed_components-project :
      (s : Service) (cs : List Component)
      → count_project project s.components ≤ 1000
      → (listed_components like project s).1 ≡ ok cs
      → cs ≡ map stored_component (project_rows s.components)
  unfolding listed_components db_list
  listed_components-project s cs few e = ground (
    arith,
    e,
    list_components-whole like "" project s.components
        (omega (arith, few, length-project_rows s.components)),
  )

  others_named :
      (t : Keyed ComponentRow) (name : String) (row : ComponentRow)
      → DistinctKeys t
      → IsNamed t
      → lookup name t ≡ some row
      → row.project_name ≢ project
      → All (λ c. (Component.name c =s= name) ≡ false) (map stored_component (project_rows t))
  others_named t name row distinct own found foreign =
      All-map (λ c. (Component.name c =s= name) ≡ false) stored_component (project_rows t)
        (Mem-All (λ q. (Component.name (ComponentRow.json q.1) =s= name) ≡ false) (project_rows t)
          (λ q m.
            let (member, inside) = project_rows-Memᴰ q t m in
            let there = Memᴰ-lookup q.0 q.1 t distinct member in
            elim (Bool-cases (Component.name (ComponentRow.json q.1) =s= name)) [
              | inr x ↦ x
              | inl x ↦
                  let at : q.0 ≡ name =
                    sym (own q.0 q.1 there)
                    ∙ (name_iff (Component.name (ComponentRow.json q.1)) name).0 x in
                  let same : row ≡ q.1 =
                    some-injective row q.1 (sym found ∙ sym (ap (λ k. lookup k t) at) ∙ there) in
                  elim (foreign (ap ComponentRow.project_name same ∙ inside)) [ ]
            ]))

listed_components-data :
    (like : String → String → Bool) (project : String) (s : Service)
    → (listed_components like project s).0.components ≡ s.components
unfolding listed_components db_list
listed_components-data like project s =
    let page = db_list (list_components like (of_project project) s.components) s in
    elim (DbResult-cases page.1) [
      | inl (found, x) ↦ rw (x, listed_components) refl
      | inr (e, x) ↦ rw (x, listed_components) refl
    ]

abbrev reply_removed : String → List Component → Unit {0} → Service → Service × Rpc (String × Bool)
reply_removed name cs u v = (v, replied (name, some_listed cs))

abbrev after_list : String → List Component → Service → Service × Rpc (String × Bool)
after_list name cs s = and_then (remove_listed cs s) (reply_removed name cs)

removed_listed :
    (like : String → String → Bool) (input_name : String) (s : Service) (result : String × Bool)
    → (serve_remove_project like input_name s).1 ≡ replied result
    → (cs : List Component) × ((listed_components like (to_lower input_name) s).1 ≡ ok cs)
      × let first = (listed_components like (to_lower input_name) s).0 in
        ((serve_remove_project like input_name s).0 ≡ (remove_listed cs first).0)
        × ((remove_listed cs first).1 ≡ replied tt)
unfolding serve_remove_project on_error
removed_listed like input_name s result e =
    let first = listed_components like (to_lower input_name) s in
    elim (DbResult-cases first.1) [
      | inr (d, x) ↦ ground (arith, x, e)
      | inl (cs, listed) ↦
          let step : serve_remove_project like input_name s
              ≡ after_list (to_lower input_name) cs first.0 =
            rw (listed, serve_remove_project) refl in
          let (u, removed, end) =
            and_then-replied (remove_listed cs first.0) (reply_removed (to_lower input_name) cs)
              result (ap (λ r. r.1) (sym step) ∙ e) in
          (
            cs,
            listed,
            (
              ap (λ r. r.0)
                  (step
                    ∙ and_then-reply (remove_listed cs first.0)
                        (reply_removed (to_lower input_name) cs) u removed),
              removed,
            ),
          )
    ]

-- Where each component is stored once and under its own name, and the name asked for, in lower case, is not empty and
-- no more than a thousand components have it as their project: if RemoveProject succeeds, no component of the
-- project and no event source of one is left, and every other component is as it was.
pub serve_remove_project-Gone :
    (like : String → String → Bool) (input_name : String) (s : Service) (result : String × Bool)
    (name : String) (row : ComponentRow)
    → DistinctKeys s.components
    → IsNamed s.components
    → to_lower input_name ≢ ""
    → count_project (to_lower input_name) s.components ≤ 1000
    → (serve_remove_project like input_name s).1 ≡ replied result
    → lookup name s.components ≡ some row
    → let after = (serve_remove_project like input_name s).0 in
      (row.project_name ≡ to_lower input_name → Gone name after)
      × (row.project_name ≢ to_lower input_name → lookup name after.components ≡ some row)
serve_remove_project-Gone like input_name s result name row distinct own nonempty few replies
      found =
    let project = to_lower input_name in
    let named : (project =s= "") ≡ false = ground (arith, nonempty, name_iff project "") in
    let (cs, listed, (end, removed)) = removed_listed like input_name s result replies in
    let all : cs ≡ map stored_component (project_rows like project named s.components) =
      listed_components-project like project named s cs few listed in
    let first = (listed_components like project s).0 in
    (
      λ inside.
          let member : Memᴰ row.json cs = subst (Memᴰ row.json) (sym all) (
            Memᴰ-map stored_component (name, row) (project_rows like project named s.components)
              (project_rows-keeps like project named (name, row) s.components
                (lookup-Memᴰ name row s.components found) inside)) in
          subst (Gone name) (sym end) (
            subst (λ k. Gone k (remove_listed cs first).0) (own name row found)
              (All-Mem (λ c. Gone (Component.name c) (remove_listed cs first).0) cs
                (remove_listed-Gone cs first tt removed) row.json member)),
      λ foreign.
          subst (λ (t : Service). lookup name t.components ≡ some row) (sym end)
            (remove_listed-others name cs first (
                subst (All (λ c. (Component.name c =s= name) ≡ false)) (sym all) (
                  others_named like project named s.components name row distinct own found foreign))
              ∙ ap (lookup name) (listed_components-data like project s)
              ∙ found),
    )
