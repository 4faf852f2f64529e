-- ===== src/Resolver/Specific.antt =====
-- The event source that answers a request is a most specific one, pkg/maelstrom/resolver.go.
use Prim.Native.String.{len}
use maelstrom.Prelude.{
  ℕ, ◌≤◌, ◌<◌, ◌≡◌, ◌⊎◌, inl, inr, refl, ap, String, true, false, Option, none, some, List, [], ◌∷◌,
  All, Memᴰ, Memᴰ-cons, ◌=s=◌, if◌then◌else◌, Bool-cases, Option-cases, All-Mem, arith,
}
use maelstrom.V1.{EventSource, HttpEventSource}
use maelstrom.Placement.Best.{sort}
use maelstrom.Placement.Best.Ordered.{IsSorted, sort-IsSorted}
use maelstrom.Placement.Best.Sorting.{sort-keeps, sort-Memᴰ}
use maelstrom.Resolver.{http_less, http_less_by, http_event_source_matches, first_match}

abbrev no_hostname : HttpEventSource → ℕ
no_hostname h = if h.hostname =s= "" then 1 else 0

-- At least as specific: with a hostname before those without, and then by the length of the path.
abbrev pub AsSpecific : HttpEventSource → HttpEventSource → Type 0
AsSpecific a b =
    (no_hostname a < no_hostname b)
    ⊎ (no_hostname a ≡ no_hostname b) × (len b.path_prefix ≤ len a.path_prefix)

AsSpecific-trans : (a b c : HttpEventSource) → AsSpecific a b → AsSpecific b c → AsSpecific a c
AsSpecific-trans a b c (inl x) (inl y) = inl (omega (arith, x, y))
AsSpecific-trans a b c (inl x) (inr (y, z)) = inl (omega (arith, x, y))
AsSpecific-trans a b c (inr (x, w)) (inl y) = inl (omega (arith, x, y))
AsSpecific-trans a b c (inr (x, w)) (inr (y, z)) = inr (omega (arith, x, y), omega (arith, w, z))

less_AsSpecific : (a b : HttpEventSource) → http_less_by a b ≡ true → AsSpecific a b
unfolding http_less_by
less_AsSpecific a b e = ground (arith, e)

not_less_AsSpecific : (a b : HttpEventSource) → http_less_by a b ≡ false → AsSpecific b a
unfolding http_less_by
not_less_AsSpecific a b e = ground (arith, e)

abbrev pub Specific : Option HttpEventSource → Option HttpEventSource → Type 0
Specific none none = Unit
Specific none (some k) = ⊥
Specific (some h) none = ⊥
Specific (some h) (some k) = AsSpecific h k

Specific-trans : (a b c : Option HttpEventSource) → Specific a b → Specific b c → Specific a c
Specific-trans none none none x y = tt
Specific-trans none none (some k) x y = y
Specific-trans none (some h) c x y = elim x [ ]
Specific-trans (some g) none c x y = elim x [ ]
Specific-trans (some g) (some h) none x y = y
Specific-trans (some g) (some h) (some k) x y = AsSpecific-trans g h k x y

abbrev pub IsHttp : EventSource → Type 0
IsHttp e = (h : HttpEventSource) × (e.http ≡ some h)

abbrev SpecificSource : EventSource → EventSource → Type 0
SpecificSource a b = Specific a.http b.http

source_trans : (a b c : EventSource) → SpecificSource a b → SpecificSource b c → SpecificSource a c
source_trans a b c x y = Specific-trans a.http b.http c.http x y

less_SpecificSource :
    (a b : EventSource) → IsHttp a → IsHttp b → http_less a b ≡ true → SpecificSource a b
unfolding http_less
less_SpecificSource a b (h, x) (k, y) e = rw (x, y) (less_AsSpecific h k (ground (arith, x, y, e)))

not_less_SpecificSource :
    (a b : EventSource) → IsHttp a → IsHttp b → http_less a b ≡ false → SpecificSource b a
unfolding http_less
not_less_SpecificSource a b (h, x) (k, y) e =
    rw (x, y) (not_less_AsSpecific h k (ground (arith, x, y, e)))

abbrev Sorted : List EventSource → Type 0
Sorted es =
    IsSorted http_less IsHttp SpecificSource source_trans less_SpecificSource
      not_less_SpecificSource es

-- Each is at least as specific as all after it.
abbrev pub IsInOrder : List EventSource → Type 0
IsInOrder [] = Unit
IsInOrder (e ∷ es) = All (λ f. Specific e.http (EventSource.http f)) es × IsInOrder es

Sorted-IsInOrder : (es : List EventSource) → Sorted es → IsInOrder es
Sorted-IsInOrder [] h = tt
Sorted-IsInOrder (e ∷ es) h = (h.0, Sorted-IsInOrder es h.1)

sort-Sorted : (es : List EventSource) → All IsHttp es → Sorted (sort http_less es)
sort-Sorted =
    sort-IsSorted http_less IsHttp SpecificSource source_trans less_SpecificSource
      not_less_SpecificSource

pub sort-IsInOrder : (es : List EventSource) → All IsHttp es → IsInOrder (sort http_less es)
sort-IsInOrder es http = Sorted-IsInOrder (sort http_less es) (sort-Sorted es http)

module _ (hostname path : String) where
  abbrev Found : EventSource → List EventSource → Type 0
  Found f es =
      (e : EventSource) × (first_match hostname path es ≡ some e)
      × Memᴰ e es
      × (http_event_source_matches e hostname path ≡ true)
      × SpecificSource e f

  matches_own :
      (f : EventSource) → http_event_source_matches f hostname path ≡ true → SpecificSource f f
  unfolding http_event_source_matches
  matches_own f e = elim (Option-cases f.http) [
    | inl x ↦ ground (arith, x, e)
    | inr (h, x) ↦ rw x (inr (refl, omega arith))
  ]

  first_match-Found :
      (es : List EventSource) (f : EventSource)
      → Sorted es
      → Memᴰ f es
      → http_event_source_matches f hostname path ≡ true
      → Found f es
  unfolding first_match
  first_match-Found [] f sorted m e = elim m [ ]
  first_match-Found (g ∷ es) f sorted m e =
      elim (Bool-cases (http_event_source_matches g hostname path)) [
        | inl x ↦ elim (Memᴰ-cons m) [
          | inl same ↦ (g, rw (x, first_match) refl, Memᴰ.head refl, x, rw same (matches_own g x))
          | inr later ↦ (
            g,
            rw (x, first_match) refl,
            Memᴰ.head refl,
            x,
            All-Mem (SpecificSource g) es sorted.0 f later,
          )
        ]
        | inr x ↦ elim (Memᴰ-cons m) [
          | inl same ↦
              ground (arith, x, ap (λ q. http_event_source_matches q hostname path) same, e)
          | inr later ↦
              let (d, found, member, match, specific) = first_match-Found es f sorted.1 later e in
              (d, rw (x, first_match) found, Memᴰ.tail member, match, specific)
        ]
      ]

  -- If an HTTP event source matches a host and path, then the first match in the resolver's order is an event source
  -- of the list that matches and is at least as specific: it has a hostname if the other has, and if both or neither
  -- have, its path prefix is at least as long.
  pub first_match-Specific :
      (es : List EventSource) (f : EventSource)
      → All IsHttp es
      → Memᴰ f es
      → http_event_source_matches f hostname path ≡ true
      → (e : EventSource) × (first_match hostname path (sort http_less es) ≡ some e)
        × Memᴰ e es
        × (http_event_source_matches e hostname path ≡ true)
        × Specific e.http f.http
  first_match-Specific es f http m e =
      let (d, found, member, match, specific) =
        first_match-Found (sort http_less es) f (sort-Sorted es http) (sort-keeps http_less f es m)
          e in
      (d, found, sort-Memᴰ http_less d es member, match, specific)
