-- ===== src/Resolver/Loaded.antt =====
-- What the resolver loads from the database, and in which order, pkg/maelstrom/resolver.go.
use maelstrom.Prelude.{
  ℕ, ◌+◌, ◌<◌, ◌≡◌, refl, sym, ap, ◌∙◌, subst, inl, inr, String, Bool, true, some, List, [], ◌∷◌,
  map, Memᴰ, Memᴰ-cons, Mem-All, length, Keyed, ◌=s=◌, name_iff, if◌then◌else◌, Bool-cases, arith,
}
use maelstrom.V1.{EventSource}
use maelstrom.Placement.Best.{sort, insert_sorted}
use maelstrom.Placement.Best.Sorting.{sort-keeps, sort-Memᴰ}
use maelstrom.Db.Rows.{EventSourceRow}
use maelstrom.Db.Pages.{empty}
use maelstrom.Db.Lists.{event_source_matches, select_rows, by_name}
use maelstrom.Db.Lists.Whole.{select_rows-Memᴰ, select_rows-keeps, length-select_rows, length-sort}
use maelstrom.Resolver.{http_less, enabled_sources, all_enabled_http_event_sources}
use maelstrom.Resolver.Paged.{http_input, http_rows, status_of, all_enabled_http_event_sources-sort}
use maelstrom.Resolver.Specific.{IsHttp, IsInOrder, sort-IsInOrder}

-- The row of an enabled event source of the type http.
abbrev pub IsServed : EventSourceRow → Type 0
IsServed row = (row.event_type ≡ "http") × (row.enabled ≡ true)

abbrev pub Served : Keyed EventSourceRow → EventSource → Type 0
Served t e =
    (name : String) × (row : EventSourceRow) × Memᴰ (name, row) t × IsServed row × (row.json ≡ e)

abbrev served_row : EventSourceRow → ℕ
served_row row = if row.event_type =s= "http" then if row.enabled then 1 else 0 else 0

abbrev pub count_served : Keyed EventSourceRow → ℕ
count_served [] = 0
count_served ((name, row) ∷ t) = served_row row + count_served t

abbrev sources : Keyed EventSourceRow → List EventSource
sources rows = enabled_sources (map status_of rows)

sources-Memᴰ :
    (e : EventSource) (rows : Keyed EventSourceRow)
    → Memᴰ e (sources rows)
    → (q : String × EventSourceRow) × Memᴰ q rows × (q.1.enabled ≡ true) × (q.1.json ≡ e)
unfolding enabled_sources
sources-Memᴰ e [] m = elim m [ ]
sources-Memᴰ e ((name, row) ∷ rows) m = elim (Bool-cases row.enabled) [
  | inl x ↦ elim (Memᴰ-cons (rw x at m)) [
    | inl same ↦ ((name, row), Memᴰ.head refl, x, sym same)
    | inr later ↦
        let (q, member, on, json) = sources-Memᴰ e rows later in (q, Memᴰ.tail member, on, json)
  ]
  | inr x ↦
      let (q, member, on, json) = sources-Memᴰ e rows (rw x at m) in (q, Memᴰ.tail member, on, json)
]

sources-keeps :
    (name : String) (row : EventSourceRow) (rows : Keyed EventSourceRow)
    → Memᴰ (name, row) rows
    → row.enabled ≡ true
    → Memᴰ row.json (sources rows)
unfolding enabled_sources
sources-keeps name row [] m on = elim m [ ]
sources-keeps name row ((other, r) ∷ rows) m on = elim (Bool-cases r.enabled) [
  | inl x ↦ elim (Memᴰ-cons m) [
    | inl same ↦ rw x (Memᴰ.head (ap (λ q. EventSourceRow.json q.1) same))
    | inr later ↦ rw x (Memᴰ.tail (sources-keeps name row rows later on))
  ]
  | inr x ↦ elim (Memᴰ-cons m) [
    | inl same ↦ ground (arith, x, on, ap (λ q. EventSourceRow.enabled q.1) same)
    | inr later ↦ rw x (sources-keeps name row rows later on)
  ]
]

insert_sorted-sources :
    (q : String × EventSourceRow) (rows : Keyed EventSourceRow)
    → length (sources (insert_sorted by_name q rows)) ≡ length (sources (q ∷ rows))
unfolding insert_sorted enabled_sources
insert_sorted-sources q [] = refl
insert_sorted-sources q (r ∷ rows) = ground (arith, insert_sorted-sources q rows)

length-sources :
    (q : String × EventSourceRow) (rows more : Keyed EventSourceRow)
    → length (sources rows) ≡ length (sources more)
    → length (sources (q ∷ rows)) ≡ length (sources (q ∷ more))
unfolding enabled_sources
length-sources q rows more e = ground (arith, e)

sort-sources :
    (rows : Keyed EventSourceRow) → length (sources (sort by_name rows)) ≡ length (sources rows)
unfolding sort
sort-sources [] = refl
sort-sources (q ∷ rows) =
    insert_sorted-sources q (sort by_name rows)
    ∙ length-sources q (sort by_name rows) rows (sort-sources rows)

module _ (like : String → String → Bool) where
  select_rows-count_served :
      (t : Keyed EventSourceRow)
      → length (sources (select_rows (event_source_matches like (http_input empty)) t))
        ≡ count_served t
  unfolding select_rows event_source_matches enabled_sources
  select_rows-count_served [] = refl
  select_rows-count_served ((name, row) ∷ t) = ground (arith, select_rows-count_served t)

  http_rows-Served :
      (t : Keyed EventSourceRow) (e : EventSource)
      → Memᴰ e (sources (http_rows like t))
      → Served t e
  unfolding event_source_matches
  http_rows-Served t e m =
      let (q, member, on, json) = sources-Memᴰ e (http_rows like t) m in
      let (row, http) = select_rows-Memᴰ (event_source_matches like (http_input empty)) q t (
        sort-Memᴰ by_name q (select_rows (event_source_matches like (http_input empty)) t)
          member) in
      (q.0, q.1, row, ((name_iff q.1.event_type "http").0 http, on), json)

  Served-http_rows :
      (t : Keyed EventSourceRow) (e : EventSource)
      → Served t e
      → Memᴰ e (sources (http_rows like t))
  unfolding event_source_matches
  Served-http_rows t e (name, row, member, (http, on), json) =
      subst (λ f. Memᴰ f (sources (http_rows like t))) json
        (sources-keeps name row (http_rows like t)
          (sort-keeps by_name (name, row)
            (select_rows (event_source_matches like (http_input empty)) t)
            (select_rows-keeps (event_source_matches like (http_input empty)) (name, row) t member
              ((name_iff row.event_type "http").1 http)))
          on)

  length-http_rows :
      (t : Keyed EventSourceRow) (fuel : ℕ) → length t < fuel → length (http_rows like t) < fuel
  length-http_rows t fuel h =
      let p = event_source_matches like (http_input empty) in
      omega (arith, h, length-sort by_name (select_rows p t), length-select_rows p t)

  -- Where every row of the type http has a hostname and a path, and with more fuel than the table has rows, the loop
  -- over the pages ends. The list that it gives holds the event sources of exactly those rows of the whole table that
  -- are enabled and of the type http, as many as there are such rows, and each is at least as specific as all after
  -- it.
  pub all_enabled_http_event_sources_total :
      (fuel : ℕ) (t : Keyed EventSourceRow)
      → length t < fuel
      → ((e : EventSource) → Served t e → IsHttp e)
      → (es : List EventSource) × (all_enabled_http_event_sources like fuel t ≡ some es)
        × ((e : EventSource) → (Memᴰ e es → Served t e) × (Served t e → Memᴰ e es))
        × (length es ≡ count_served t)
        × IsInOrder es
  all_enabled_http_event_sources_total fuel t h http =
      let rows = http_rows like t in
      let found = sources rows in
      (
        sort http_less found,
        all_enabled_http_event_sources-sort like t fuel (length-http_rows t fuel h),
        λ e. (
          λ m. http_rows-Served t e (sort-Memᴰ http_less e found m),
          λ s. sort-keeps http_less e found (Served-http_rows t e s),
        ),
        length-sort http_less found
            ∙ sort-sources (select_rows (event_source_matches like (http_input empty)) t)
            ∙ select_rows-count_served t,
        sort-IsInOrder found (Mem-All IsHttp found (λ e m. http e (http_rows-Served t e m))),
      )
