-- ===== src/Resolver/Paged.antt =====
-- The pages that the resolver loads from the database are its rows of HTTP event sources, pkg/maelstrom/resolver.go.
use maelstrom.Prelude.{
  append_nil, ℕ, zero, suc, ◌<◌, ◌≡◌, ◌⊎◌, inl, inr, refl, ap, ◌∙◌, String, Bool, Option, none,
  some, List, [], ◌∷◌, ◌++◌, map, length, Keyed, Option-cases, arith,
}
use maelstrom.Prelude.Int.{ℤ, pos}
use maelstrom.Placement.Best.{sort}
use maelstrom.Project.{EventSourceWithStatus}
use maelstrom.Db.Rows.{EventSourceRow}
use maelstrom.Db.Pages.{Token, empty, number, other, select_paginated, all_pages}
use maelstrom.Db.Pages.Complete.{all_pages_complete, read_all-some}
use maelstrom.Db.Lists.{
  ListEventSourcesInput, list_event_sources, event_source_matches, select_rows, by_name,
  with_status,
}
use maelstrom.Resolver.{
  http_less, enabled_sources, append_sources, enabled_pages, all_enabled_http_event_sources,
}

abbrev pub http_input : Token → ListEventSourcesInput
http_input token = record {
  name_prefix = "";
  component_name = "";
  project_name = "";
  event_source_type = "http";
  limit = pos 0;
  next_token = token;
}

abbrev pub status_of : String × EventSourceRow → EventSourceWithStatus
status_of (name, row) = record { event_source = row.json; enabled = row.enabled }

page-cases :
    {A : Type 0} (page : Option (List A × Token))
    → (page ≡ none)
      ⊎ ((found : List A) × ((page ≡ some (found, empty))
            ⊎ ((n : ℤ) × (page ≡ some (found, number n)))
            ⊎ ((s : String) × (page ≡ some (found, other s)))))
page-cases none = inl refl
page-cases (some (found, empty)) = inr (found, inl refl)
page-cases (some (found, number n)) = inr (found, inr (inl (n, refl)))
page-cases (some (found, other s)) = inr (found, inr (inr (s, refl)))

module _ (like : String → String → Bool) (t : Keyed EventSourceRow) where
  -- The rows of HTTP event sources, in the order of their names.
  abbrev pub http_rows : Keyed EventSourceRow
  http_rows = sort by_name (select_rows (event_source_matches like (http_input empty)) t)

  append_enabled :
      (found more : List EventSourceWithStatus)
      → append_sources (enabled_sources found) (some (enabled_sources more))
        ≡ some (enabled_sources (found ++ more))
  unfolding append_sources enabled_sources
  append_enabled [] more = refl
  append_enabled (e ∷ found) more = ground (arith, append_enabled found more)

  enabled_pages-all_pages :
      (fuel : ℕ) (token : Token) (all : List EventSourceWithStatus)
      → all_pages with_status fuel token (pos 0) http_rows ≡ some all
      → enabled_pages like fuel token t ≡ some (enabled_sources all)
  unfolding all_pages enabled_pages list_event_sources event_source_matches
  enabled_pages-all_pages zero token all e = ground (arith, e)
  enabled_pages-all_pages (suc fuel) token all e =
      elim (page-cases (select_paginated with_status token (pos 0) http_rows)) [
        | inl x ↦ ground (arith, x, e)
        | inr (found, inl x) ↦
            let same : found ≡ all = ground (arith, x, e) in
            rw (x, enabled_pages, same)
              (append_enabled all [] ∙ ap (λ es. some (enabled_sources es)) (append_nil all))
        | inr (found, inr (inl (n, x))) ↦
            elim (Option-cases (all_pages with_status fuel (number n) (pos 0) http_rows)) [
              | inl y ↦ ground (arith, x, y, e)
              | inr (more, y) ↦
                  let rest = enabled_pages-all_pages fuel (number n) more y in
                  let same : found ++ more ≡ all = ground (arith, x, y, e) in
                  rw (x, enabled_pages, rest)
                    (append_enabled found more ∙ ap (λ es. some (enabled_sources es)) same)
            ]
        | inr (found, inr (inr (s, x))) ↦ ground (arith, x, e)
      ]

  pub all_enabled_http_event_sources-sort :
      (fuel : ℕ)
      → length http_rows < fuel
      → all_enabled_http_event_sources like fuel t
        ≡ some (sort http_less (enabled_sources (map status_of http_rows)))
  unfolding all_enabled_http_event_sources
  all_enabled_http_event_sources-sort fuel h =
      let pages : all_pages with_status fuel empty (pos 0) http_rows
          ≡ some (map status_of http_rows) =
        all_pages_complete with_status (pos 0) http_rows fuel h
        ∙ read_all-some status_of http_rows in
      rw
        (
          enabled_pages-all_pages fuel empty (map status_of http_rows) pages,
          all_enabled_http_event_sources,
        )
        refl
