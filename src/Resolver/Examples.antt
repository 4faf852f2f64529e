-- ===== src/Resolver/Examples.antt =====
-- Two event sources of which one is for a longer path.
use maelstrom.Prelude.{
  ◌≡◌, String, List, [], ◌∷◌, refl, ap, sym, ◌∙◌, length, some, false, true, Bool, Memᴰ, Keyed,
  arith,
}
use maelstrom.Prelude.Int.{pos}
use maelstrom.V1.{EventSource}
use maelstrom.Placement.Best.{sort}
use maelstrom.Db.Rows.{EventSourceRow}
use maelstrom.Resolver.{
  http_less, http_event_source_matches, first_match, all_enabled_http_event_sources,
}
use maelstrom.Resolver.Specific.{IsHttp, IsInOrder, Specific, first_match-Specific}
use maelstrom.Resolver.Loaded.{Served, all_enabled_http_event_sources_total}
use maelstrom.Samples.{source_at}

abbrev sources : List EventSource
sources = source_at "front" "/" ∷ source_at "cart" "/cart" ∷ []

first_match-Specific_example :
    (e : EventSource) × (first_match "shop" "/cart/1" (sort http_less sources) ≡ some e)
    × Memᴰ e sources
    × (http_event_source_matches e "shop" "/cart/1" ≡ true)
    × Specific e.http (some (record { hostname = ""; path_prefix = "/"; strip_prefix = false }))
unfolding http_event_source_matches
first_match-Specific_example =
    first_match-Specific "shop" "/cart/1" sources (source_at "front" "/")
      ((_, refl), ((_, refl), tt)) (Memᴰ.head refl) refl

abbrev no_like : String → String → Bool
no_like prefix name = false

abbrev row : Bool → EventSource → String × EventSourceRow
row enabled e = (
  e.name,
  record {
    component_name = e.component_name;
    project_name = e.project_name;
    event_type = "http";
    version = pos 1;
    created_at = pos 0;
    modified_at = pos 0;
    enabled = enabled;
    json = e;
  },
)

abbrev rows : Keyed EventSourceRow
rows = row true (source_at "front" "/") ∷ row false (source_at "cart" "/cart") ∷ []

rows-IsHttp : (e : EventSource) → Served rows e → IsHttp e
rows-IsHttp e (name, r, Memᴰ.head same, served, json) = (
  record { hostname = ""; path_prefix = "/"; strip_prefix = false },
  ap EventSource.http (sym json ∙ ap (λ q. EventSourceRow.json q.1) same),
)
rows-IsHttp e (name, r, Memᴰ.tail (Memᴰ.head same), served, json) = (
  record { hostname = ""; path_prefix = "/cart"; strip_prefix = false },
  ap EventSource.http (sym json ∙ ap (λ q. EventSourceRow.json q.1) same),
)
rows-IsHttp e (name, r, Memᴰ.tail (Memᴰ.tail m), served, json) = elim m [ ]

all_enabled_http_event_sources_total_example :
    (es : List EventSource) × (all_enabled_http_event_sources no_like 3 rows ≡ some es)
    × ((e : EventSource) → (Memᴰ e es → Served rows e) × (Served rows e → Memᴰ e es))
    × (length es ≡ 1)
    × IsInOrder es
all_enabled_http_event_sources_total_example =
    all_enabled_http_event_sources_total no_like 3 rows (omega arith) rows-IsHttp
