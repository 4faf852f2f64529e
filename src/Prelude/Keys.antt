-- ===== src/Prelude/Keys.antt =====
-- Go maps with string keys as association lists. The order of the list is the order in which
-- `range` meets the entries; the theorems hold for every list.
use Prim.Native.String.{String}
use mathlib.Core.Path.{◌≡◌, refl, sym, ap}
use mathlib.Core.List.{List, [], ◌∷◌, Memᴰ}
use mathlib.Core.Option.{Option, none, some, some-injective}
use native.Mathlib.Omega.{arith}
use mathlib.Core.Logic.{inl, inr}
use maelstrom.Prelude.Tests.{◌=s=◌, name_iff, if◌then◌else◌, Bool-cases}

abbrev pub Keyed {ℓ} : Type ℓ → Type ℓ
Keyed V = List (String × V)

module _ {ℓ} {V : Type ℓ} where
  -- `v, ok := m[k]`
  unfoldable pub lookup : String → Keyed V → Option V
  lookup k [] = none
  lookup k ((j, v) ∷ m) = if j =s= k then some v else lookup k m

  -- `m[k] = v`
  unfoldable pub insert : String → V → Keyed V → Keyed V
  insert k v [] = (k, v) ∷ []
  insert k v ((j, w) ∷ m) = if j =s= k then (k, v) ∷ m else (j, w) ∷ insert k v m

  -- `delete(m, k)`
  unfoldable pub delete : String → Keyed V → Keyed V
  delete k [] = []
  delete k ((j, w) ∷ m) = let rest = delete k m in if j =s= k then rest else (j, w) ∷ rest

  pub lookup-insert :
      (k j : String) (v : V) (m : Keyed V)
      → lookup j (insert k v m) ≡ (if k =s= j then some v else lookup j m)
  unfolding lookup insert
  lookup-insert k j v [] = refl
  lookup-insert k j v ((i, w) ∷ m) =
      ground (arith, name_iff k j, name_iff i k, name_iff i j, lookup-insert k j v m)

  pub lookup-delete :
      (k j : String) (m : Keyed V) → lookup j (delete k m) ≡ (if k =s= j then none else lookup j m)
  unfolding lookup delete
  lookup-delete k j [] = ground arith
  lookup-delete k j ((i, w) ∷ m) =
      ground (arith, name_iff k j, name_iff i k, name_iff i j, lookup-delete k j m)

  -- A Go map holds each key once.
  abbrev pub DistinctKeys : Keyed V → Type ℓ
  DistinctKeys [] = Unit
  DistinctKeys ((k, v) ∷ m) = (lookup k m ≡ none) × DistinctKeys m

  pub insert-DistinctKeys :
      (k : String) (v : V) (m : Keyed V) → DistinctKeys m → DistinctKeys (insert k v m)
  unfolding insert lookup
  insert-DistinctKeys k v [] d = (refl, tt)
  insert-DistinctKeys k v ((j, w) ∷ m) d =
      ground (arith, name_iff j k, name_iff k j, lookup-insert k j v m, insert-DistinctKeys k v m)

  pub delete-DistinctKeys : (k : String) (m : Keyed V) → DistinctKeys m → DistinctKeys (delete k m)
  unfolding delete
  delete-DistinctKeys k [] d = tt
  delete-DistinctKeys k ((j, w) ∷ m) d =
      ground (arith, lookup-delete k j m, delete-DistinctKeys k m)

  pub delete_absent : (k : String) (m : Keyed V) → lookup k m ≡ none → delete k m ≡ m
  unfolding delete lookup
  delete_absent k [] e = refl
  delete_absent k ((j, w) ∷ m) e = ground (arith, delete_absent k m)

  pub lookup-Memᴰ : (k : String) (v : V) (m : Keyed V) → lookup k m ≡ some v → Memᴰ (k, v) m
  unfolding lookup
  lookup-Memᴰ k v [] e = ground (arith, e)
  lookup-Memᴰ k v ((j, w) ∷ m) e = elim (Bool-cases (j =s= k)) [
    | inl x ↦
        Memᴰ.head
          (λ i. (sym ((name_iff j k).0 x) i, sym (some-injective w v (ground (arith, x, e))) i))
    | inr x ↦ Memᴰ.tail (lookup-Memᴰ k v m (ground (arith, x, e)))
  ]

  pub Memᴰ-lookup :
      (k : String) (v : V) (m : Keyed V) → DistinctKeys m → Memᴰ (k, v) m → lookup k m ≡ some v
  unfolding lookup
  Memᴰ-lookup k v [] d m = elim m [ ]
  Memᴰ-lookup k v ((j, w) ∷ m) d (Memᴰ.head e) =
      ground (arith, ap (λ p. p.0) e, ap (λ p. p.1) e, name_iff j k)
  Memᴰ-lookup k v ((j, w) ∷ m) (fresh, d) (Memᴰ.tail t) =
      ground (arith, fresh, name_iff j k, Memᴰ-lookup k v m d t)
