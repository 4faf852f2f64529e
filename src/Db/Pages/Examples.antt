-- ===== src/Db/Pages/Examples.antt =====
-- A query of five rows in pages of two.
use maelstrom.Prelude.{ℕ, suc, ◌≡◌, refl, Option, some, List, [], ◌∷◌, arith}
use maelstrom.Prelude.Int.{pos}
use maelstrom.Db.Pages.{
  empty, number, select_paginated, all_pages, read_all, page_offset, page_limit, read_rows,
  next_token, uint64,
}
use maelstrom.Db.Pages.Complete.{all_pages_complete}

abbrev rows : List ℕ
rows = 11 ∷ 12 ∷ 13 ∷ 14 ∷ 15 ∷ []

abbrev plus_one : ℕ → Option ℕ
plus_one n = some (suc n)

second_page :
    select_paginated plus_one (number (pos 2)) (pos 2) rows ≡ some (14 ∷ 15 ∷ [], number (pos 4))
unfolding select_paginated page_offset page_limit read_rows next_token uint64
second_page = refl

all_pages_complete_example : all_pages plus_one 6 empty (pos 2) rows ≡ read_all plus_one rows
all_pages_complete_example = all_pages_complete plus_one (pos 2) rows 6 (omega arith)
