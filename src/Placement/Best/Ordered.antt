-- ===== src/Placement/Best/Ordered.antt =====
-- What sorting puts in order, for any `less` that decides a transitive relation: sort.Sort of Go.
use maelstrom.Prelude.{◌≡◌, Bool, true, false, List, [], ◌∷◌, All, if-cases}
use maelstrom.Placement.Best.{insert_sorted, sort}

module _ {A : Type 0} (less : A → A → Bool) where
  pub insert_sorted-All :
      (Q : A → Type 0) (x : A) (ys : List A) → Q x → All Q ys → All Q (insert_sorted less x ys)
  unfolding insert_sorted
  insert_sorted-All Q x [] q h = (q, tt)
  insert_sorted-All Q x (y ∷ ys) q h =
      if-cases (All Q) (less y x) (λ e. (h.0, insert_sorted-All Q x ys q h.1)) (λ e. (q, h))

  pub sort-All : (Q : A → Type 0) (xs : List A) → All Q xs → All Q (sort less xs)
  unfolding sort
  sort-All Q [] h = tt
  sort-All Q (x ∷ xs) h = insert_sorted-All Q x (sort less xs) h.0 (sort-All Q xs h.1)

  module _ (P : A → Type 0) (Le : A → A → Type 0) (trans : (a b c : A) → Le a b → Le b c → Le a c)
      (is_less : (a b : A) → P a → P b → less a b ≡ true → Le a b)
      (is_not_less : (a b : A) → P a → P b → less a b ≡ false → Le b a) where
    -- Each element is related to all later ones.
    abbrev pub IsSorted : List A → Type 0
    IsSorted [] = Unit
    IsSorted (x ∷ xs) = All (Le x) xs × IsSorted xs

    weaken : (x y : A) (ys : List A) → Le x y → All (Le y) ys → All (Le x) ys
    weaken x y [] l h = tt
    weaken x y (z ∷ zs) l h = (trans x y z l h.0, weaken x y zs l h.1)

    insert_sorted-IsSorted :
        (x : A) (ys : List A) → P x → All P ys → IsSorted ys → IsSorted (insert_sorted less x ys)
    unfolding insert_sorted
    insert_sorted-IsSorted x [] p h s = (tt, tt)
    insert_sorted-IsSorted x (y ∷ ys) p h s =
        if-cases IsSorted (less y x)
          (λ e. (
            insert_sorted-All (Le y) x ys (is_less y x h.0 p e) s.0,
            insert_sorted-IsSorted x ys p h.1 s.1,
          ))
          (λ e.
            let first : Le x y = is_not_less y x h.0 p e in ((first, weaken x y ys first s.0), s))

    pub sort-IsSorted : (xs : List A) → All P xs → IsSorted (sort less xs)
    unfolding sort
    sort-IsSorted [] h = tt
    sort-IsSorted (x ∷ xs) h =
        insert_sorted-IsSorted x (sort less xs) h.0 (sort-All P xs h.1) (sort-IsSorted xs h.1)
