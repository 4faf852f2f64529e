-- ===== src/Dispenser/Examples.antt =====
-- A dispenser for one request at a time.
use maelstrom.Prelude.{suc, ◌≤◌, ◌<◌, ◌≡◌, refl, false, arith}
use maelstrom.Prelude.Int.{pos}
use maelstrom.Dispenser.{
  Dispenser, new_dispenser, done_ch_size, accepts, Step, Reach, request, context_done, start, next,
}
use maelstrom.Dispenser.Limits.{left, dispenser_limit, dispenser_drains}

abbrev at_limit : Dispenser
at_limit = record { max_concurrency = pos 1; active = false; concur = 1; in_flight = 1; done = 0 }

Reach-at_limit : Reach (pos 1) at_limit
unfolding new_dispenser accepts
Reach-at_limit = next (next start (request refl refl)) (context_done refl)

dispenser_limit_example : (1 ≤ 1) × (1 ≤ 1 → 0 < done_ch_size at_limit)
dispenser_limit_example = dispenser_limit {d = at_limit} Reach-at_limit (omega arith)

dispenser_drains_example :
    ((1 ≤ 1) → (e : Dispenser) × Step at_limit e)
    × ((e : Dispenser) → Step at_limit e → (e.active ≡ false) × (suc (left e) ≡ left at_limit))
dispenser_drains_example = dispenser_drains {d = at_limit} Reach-at_limit refl
