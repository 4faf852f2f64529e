-- ===== src/Db/Lists/Whole.antt =====
-- Lists that fit on one page, and which rows they give, pkg/db/sql_db.go.
use maelstrom.Prelude.{
  suc, ◌≤◌, ◌≡◌, refl, sym, ap, ◌∙◌, subst, inl, inr, String, Bool, true, some, List, [], ◌∷◌, map,
  Memᴰ, Memᴰ-cons, length, take_all, drop_all, Keyed, if-cases, arith,
}
use maelstrom.Prelude.Int.{pos}
use maelstrom.V1.{Component}
use maelstrom.Placement.Best.{sort, insert_sorted}
use maelstrom.Db.Rows.{ComponentRow}
use maelstrom.Db.Pages.{empty, read_all, page_limit, page_offset}
use maelstrom.Db.Pages.Complete.{page-end, read_all-some}
use maelstrom.Db.Lists.{
  ListComponentsInput, select_rows, component_matches, list_components, component_of, by_name,
}

module _ {R : Type 0} (p : String → R → Bool) where
  pub select_rows-Memᴰ :
      (e : String × R) (t : Keyed R) → Memᴰ e (select_rows p t) → Memᴰ e t × (p e.0 e.1 ≡ true)
  unfolding select_rows
  select_rows-Memᴰ e [] m = elim m [ ]
  select_rows-Memᴰ e ((name, row) ∷ t) m =
      let later : Memᴰ e (select_rows p t) → Memᴰ e ((name, row) ∷ t) × (p e.0 e.1 ≡ true) =
        λ x. let (member, chosen) = select_rows-Memᴰ e t x in (Memᴰ.tail member, chosen) in
      if-cases (λ (rows : Keyed R). Memᴰ e rows → Memᴰ e ((name, row) ∷ t) × (p e.0 e.1 ≡ true))
        (p name row)
        (λ x found. elim (Memᴰ-cons {x = e} {y = (name, row)} {ys = select_rows p t} found) [
          | inl same ↦ (Memᴰ.head same, subst (λ q. p q.0 q.1 ≡ true) (sym same) x)
          | inr rest ↦ later rest
        ])
        (λ x. later) m

  pub select_rows-keeps :
      (e : String × R) (t : Keyed R) → Memᴰ e t → p e.0 e.1 ≡ true → Memᴰ e (select_rows p t)
  unfolding select_rows
  select_rows-keeps e [] m chosen = m
  select_rows-keeps e ((name, row) ∷ t) (Memᴰ.head same) chosen =
      if-cases (λ (rows : Keyed R). Memᴰ e rows) (p name row) (λ x. Memᴰ.head same)
        (λ x. ground (arith, x, chosen, ap (λ q. p q.0 q.1) same))
  select_rows-keeps e ((name, row) ∷ t) (Memᴰ.tail m) chosen =
      let rest = select_rows-keeps e t m chosen in
      if-cases (λ (rows : Keyed R). Memᴰ e rows) (p name row) (λ x. Memᴰ.tail rest) (λ x. rest)

  pub length-select_rows : (t : Keyed R) → length (select_rows p t) ≤ length t
  unfolding select_rows
  length-select_rows [] = omega arith
  length-select_rows ((name, row) ∷ t) = ground (arith, length-select_rows t)

module _ {A : Type 0} (less : A → A → Bool) where
  length-insert_sorted : (x : A) (ys : List A) → length (insert_sorted less x ys) ≡ suc (length ys)
  unfolding insert_sorted
  length-insert_sorted x [] = refl
  length-insert_sorted x (y ∷ ys) = ground (arith, length-insert_sorted x ys)

  pub length-sort : (xs : List A) → length (sort less xs) ≡ length xs
  unfolding sort
  length-sort [] = refl
  length-sort (x ∷ xs) = length-insert_sorted x (sort less xs) ∙ ap suc (length-sort xs)

-- The components that match, in the order of their names.
abbrev pub matching :
    (String → String → Bool) → ListComponentsInput → Keyed ComponentRow → Keyed ComponentRow
matching like input t = sort by_name (select_rows (component_matches like input) t)

abbrev pub stored_component : String × ComponentRow → Component
stored_component (name, row) = row.json

-- Without a limit and a token, no more than 1000 components that match are listed all.
pub list_components-whole :
    (like : String → String → Bool) (prefix project : String) (t : Keyed ComponentRow)
    → let input : ListComponentsInput = record {
      name_prefix = prefix;
      project_name = project;
      limit = pos 0;
      next_token = empty;
    } in
      length (matching like input t) ≤ 1000
      → list_components like input t ≡ some (map stored_component (matching like input t), empty)
unfolding list_components page_limit page_offset
list_components-whole like prefix project t h =
    let input : ListComponentsInput = record {
      name_prefix = prefix;
      project_name = project;
      limit = pos 0;
      next_token = empty;
    } in
    let rows = matching like input t in
    page-end component_of empty (pos 0) rows (map stored_component rows)
      (ap (read_all component_of) (take_all 1000 rows h) ∙ read_all-some stored_component rows)
      (drop_all 1000 rows h)
