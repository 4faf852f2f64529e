-- ===== src/Poller/Examples.antt =====
-- Ten requests at a time, four for each poller.
use maelstrom.Prelude.{◌≡◌, refl, [], ◌∷◌, All, arith}
use maelstrom.Poller.{to_role_id_concurrency, divide, poller_count}
use maelstrom.Poller.Division.{sum, Within, Ascending, to_role_id_concurrency_divides}

ten_in_fours :
    to_role_id_concurrency "q" 4 10
    ≡ record { role_id_prefix = "q"; index = 0; concurrency = 4 }
      ∷ record { role_id_prefix = "q"; index = 1; concurrency = 4 }
      ∷ record { role_id_prefix = "q"; index = 2; concurrency = 2 }
      ∷ []
unfolding to_role_id_concurrency divide poller_count
ten_in_fours = refl

to_role_id_concurrency_divides_example :
    let roles = to_role_id_concurrency "q" 4 10 in
    (sum roles ≡ 10) × All (Within 4) roles × Ascending 0 roles
to_role_id_concurrency_divides_example = to_role_id_concurrency_divides "q" 4 10 (omega arith)
