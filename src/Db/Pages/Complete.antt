-- ===== src/Db/Pages/Complete.antt =====
-- The pages of a query are its rows, each once and in order.
use maelstrom.Prelude.{
  append_nil, map, ℕ, zero, suc, ◌+◌, ◌-◌, ◌≤◌, ◌<◌, ◌≡◌, refl, sym, ap, ◌∙◌, Option, none, some,
  List, [], ◌∷◌, ◌++◌, length, take, drop, ◌⊎◌, Option-cases, inl, inr, arith,
}
use maelstrom.Prelude.Int.{ℤ, pos, negsuc}
use maelstrom.Db.Pages.{
  Token, empty, number, page_offset, page_limit, uint64, read_rows, next_token, select_paginated,
  all_pages, read_all,
}

List-cases :
    {R : Type 0} (rows : List R) → (rows ≡ []) ⊎ ((row : R) × (more : List R) × (rows ≡ row ∷ more))
List-cases [] = inl refl
List-cases (row ∷ rows) = inr (row, rows, refl)

suc_add : (m n : ℕ) → suc m + n ≡ suc (m + n)
suc_add m n = omega arith

module _ {R : Type 0} where
  drop_nil : (n : ℕ) → drop {A = R} n [] ≡ []
  drop_nil zero = refl
  drop_nil (suc n) = refl

  drop-drop : (m n : ℕ) (rows : List R) → drop (m + n) rows ≡ drop n (drop m rows)
  drop-drop zero n rows = ap (λ k. drop k rows) (omega arith)
  drop-drop (suc m) n [] = drop_nil (suc m + n) ∙ sym (drop_nil n)
  drop-drop (suc m) n (row ∷ rows) =
      ap (λ k. drop k (row ∷ rows)) (suc_add m n) ∙ drop-drop m n rows

  take_full :
      (n : ℕ) (rows more : List R) (row : R) → drop n rows ≡ row ∷ more → length (take n rows) ≡ n
  take_full zero rows more row e = refl
  take_full (suc n) [] more row e = ground (arith, e)
  take_full (suc n) (r ∷ rows) more row e = ap suc (take_full n rows more row e)

  length-drop : (n : ℕ) (rows : List R) → length (drop n rows) ≡ length rows - n
  length-drop zero rows = omega arith
  length-drop (suc n) [] = omega arith
  length-drop (suc n) (row ∷ rows) = omega (arith, length-drop n rows)

fewer :
    {R : Type 0} (o n fuel : ℕ) (rows : List R) (row : R) (more : List R)
    → drop n (drop o rows) ≡ row ∷ more
    → 1 ≤ n
    → length (drop o rows) < suc fuel
    → length (drop (o + n) rows) < fuel
fewer o n fuel rows row more next positive h = omega (
  arith,
  h,
  positive,
  ap length next,
  length-drop n (drop o rows),
  length-drop o rows,
  length-drop (o + n) rows,
)

page_limit-positive : (limit : ℤ) → 1 ≤ page_limit limit
unfolding page_limit
page_limit-positive (pos n) = ground arith
page_limit-positive (negsuc n) = omega arith

module _ {R A : Type 0} (on_row : R → Option A) where
  joined : Option (List A) → Option (List A) → Option (List A)
  joined none more = none
  joined (some found) none = none
  joined (some found) (some more) = some (found ++ more)

  read_all-split :
      (n : ℕ) (rows : List R)
      → read_all on_row rows
        ≡ joined (read_all on_row (take n rows)) (read_all on_row (drop n rows))
  unfolding read_all joined
  read_all-split zero rows = ground (arith, Option-cases (read_all on_row rows))
  read_all-split (suc n) [] = refl
  read_all-split (suc n) (row ∷ rows) = ground (arith, read_all-split n rows)

  page_of : ℕ → ℕ → List R → Option (List A × (ℕ × List R))
  page_of x n rows = elim (read_all on_row (take n rows)) [
    | none ↦ none
    | some found ↦ some (found, (x + length (take n rows), take 1 (drop n rows)))
  ]

  read_rows-take :
      (n limit x : ℕ) (rows : List R)
      → limit ≡ x + n
      → read_rows on_row limit x (take (suc n) rows) ≡ page_of x n rows
  unfolding read_rows page_of read_all
  read_rows-take zero limit x [] e = ground (arith, e)
  read_rows-take zero limit x (row ∷ rows) e = ground (arith, e)
  read_rows-take (suc n) limit x [] e = ground (arith, e)
  read_rows-take (suc n) limit x (row ∷ rows) e =
      ground (arith, e, read_rows-take n limit (suc x) rows)

  pub page-end :
      (token : Token) (limit : ℤ) (rows : List R) (found : List A)
      → read_all on_row (take (page_limit limit) (drop (page_offset token) rows)) ≡ some found
      → drop (page_limit limit) (drop (page_offset token) rows) ≡ []
      → select_paginated on_row token limit rows ≡ some (found, empty)
  unfolding select_paginated page_of next_token
  page-end token limit rows found e last =
      let r = drop (page_offset token) rows in
      ground
        (arith, e, last, read_rows-take (page_limit limit) (page_limit limit) 0 r (omega arith))

  page-more :
      (token : Token) (limit : ℤ) (rows : List R) (found : List A) (row : R) (more : List R)
      → read_all on_row (take (page_limit limit) (drop (page_offset token) rows)) ≡ some found
      → drop (page_limit limit) (drop (page_offset token) rows) ≡ row ∷ more
      → select_paginated on_row token limit rows
        ≡ some (found, number (pos (page_offset token + page_limit limit)))
  unfolding select_paginated page_of next_token
  page-more token limit rows found row more e next =
      let r = drop (page_offset token) rows in
      ground (
        arith,
        e,
        next,
        take_full (page_limit limit) r more row next,
        read_rows-take (page_limit limit) (page_limit limit) 0 r (omega arith),
      )

  page-fails :
      (token : Token) (limit : ℤ) (rows : List R)
      → read_all on_row (take (page_limit limit) (drop (page_offset token) rows)) ≡ none
      → select_paginated on_row token limit rows ≡ none
  unfolding select_paginated page_of
  page-fails token limit rows e =
      let r = drop (page_offset token) rows in
      ground (arith, e, read_rows-take (page_limit limit) (page_limit limit) 0 r (omega arith))

  -- One page, and the rest through its token.
  all_pages_from :
      (fuel : ℕ) (token : Token) (limit : ℤ) (rows : List R)
      → length (drop (page_offset token) rows) < fuel
      → all_pages on_row fuel token limit rows ≡ read_all on_row (drop (page_offset token) rows)
  unfolding all_pages joined page_offset uint64 read_all
  all_pages_from zero token limit rows h = absurd (omega (arith, h))
  all_pages_from (suc fuel) token limit rows h =
      let r = drop (page_offset token) rows in
      let n = page_limit limit in
      elim (Option-cases (read_all on_row (take n r))) [
        | inl e ↦ ground (arith, e, page-fails token limit rows e, read_all-split n r)
        | inr (found, e) ↦ elim (List-cases (drop n r)) [
          | inl last ↦ ground (
            arith,
            e,
            page-end token limit rows found e last,
            read_all-split n r,
            ap (read_all on_row) last,
            append_nil found,
          )
          | inr (row, more, next) ↦
              let o = page_offset token in
              let rest =
                all_pages_from fuel (number (pos (o + n))) limit rows
                  (fewer o n fuel rows row more next (page_limit-positive limit) h) in
              ground (
                arith,
                e,
                page-more token limit rows found row more e next,
                rest,
                read_all-split n r,
                ap (read_all on_row) (drop-drop o n rows),
                Option-cases (read_all on_row (drop n r)),
              )
        ]
      ]

-- Going through the pages by their tokens from the first page on gives each row once and in order,
-- as if they were read one by one, for every limit: it ends within as many pages as there are rows,
-- and one. If a row cannot be read, it ends with an error in both. The rows stay as they are.
pub all_pages_complete :
    {R A : Type 0} (on_row : R → Option A) (limit : ℤ) (rows : List R) (fuel : ℕ)
    → length rows < fuel
    → all_pages on_row fuel empty limit rows ≡ read_all on_row rows
unfolding page_offset
all_pages_complete on_row limit rows fuel h = all_pages_from on_row fuel empty limit rows h

pub read_all-some :
    {R A : Type 0} (f : R → A) (rows : List R)
    → read_all (λ row. some (f row)) rows ≡ some (map f rows)
unfolding read_all
read_all-some f [] = refl
read_all-some f (row ∷ rows) = rw (read_all-some f rows) refl
