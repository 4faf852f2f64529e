-- ===== src/Db/Pages.antt =====
-- Pages of a query, `selectPaginated` of pkg/db/sql_db.go, and the loop over all pages, as in
-- `loadActiveComponents` of pkg/maelstrom/scale.go.
pub mod Complete
mod Examples
use maelstrom.Prelude.{
  ℕ, zero, suc, ◌+◌, ◌-◌, ◌≡◌, String, Bool, true, false, ◌||◌, Option, none, some, List, [], ◌∷◌,
  ◌++◌, length, take, drop, ltb, if◌then◌else◌,
}
use maelstrom.Prelude.Int.{ℤ, pos, negsuc, ltb_ℤ}

-- A page token: the text of a number, or another text.
pub data Token : Type 0 where
  empty : Token
  number : ℤ → Token
  other : String → Token

-- `uint64(offset)`
uint64 : ℤ → ℕ
uint64 (pos n) = n
uint64 (negsuc n) = 18446744073709551615 - n

unfoldable pub page_offset : Token → ℕ
unfolding uint64
page_offset empty = 0
page_offset (number n) = uint64 n
page_offset (other s) = 0

unfoldable pub page_limit : ℤ → ℕ
page_limit (pos n) = if ltb n 1 || ltb 1000 n then 1000 else n
page_limit (negsuc n) = 1000

module _ {R A : Type 0} (on_row : R → Option A) where
  -- The loop over the rows fetched: what it read, how much, and the rows that it left. A row that
  -- cannot be read ends it.
  read_rows : ℕ → ℕ → List R → Option (List A × (ℕ × List R))
  read_rows limit x [] = some ([], (x, []))
  read_rows limit x (row ∷ rows) =
      let rest = read_rows limit (suc x) rows in
      if ltb x limit
      then elim (on_row row) [
        | none ↦ none
        | some a ↦ elim rest [ none ↦ none | some (found, left) ↦ some (a ∷ found, left) ]
      ]
      else some ([], (x, row ∷ rows))

  next_token : ℕ → List A × (ℕ × List R) → List A × Token
  next_token offset (found, (x, [])) = (found, empty)
  next_token offset (found, (x, row ∷ rows)) = (found, number (pos (offset + x)))

  -- `rows` is what the query gives without offset and limit.
  unfoldable pub select_paginated : Token → ℤ → List R → Option (List A × Token)
  unfolding read_rows next_token page_offset
  select_paginated token limit rows =
      elim (read_rows (page_limit limit) 0
        (take (suc (page_limit limit)) (drop (page_offset token) rows))) [
          | none ↦ none
          | some r ↦ some (next_token (page_offset token) r)
        ]

  -- The loop over the pages: `none` is an error or the end of the fuel.
  unfoldable pub all_pages : ℕ → Token → ℤ → List R → Option (List A)
  all_pages zero token limit rows = none
  all_pages (suc fuel) token limit rows = elim (select_paginated token limit rows) [
    | none ↦ none
    | some (found, empty) ↦ some found
    | some (found, number n) ↦ elim (all_pages fuel (number n) limit rows) [
      | none ↦ none
      | some more ↦ some (found ++ more)
    ]
    | some (found, other s) ↦ none
  ]

  -- All rows, read one by one.
  pub read_all : List R → Option (List A)
  read_all [] = some []
  read_all (row ∷ rows) =
      let rest = read_all rows in
      elim (on_row row) [
        | none ↦ none
        | some a ↦ elim rest [ none ↦ none | some found ↦ some (a ∷ found) ]
      ]
