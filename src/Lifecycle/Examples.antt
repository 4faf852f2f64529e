-- ===== src/Lifecycle/Examples.antt =====
-- Three requests, a roll-over and failed health checks of a container.
use maelstrom.Prelude.{false, List, [], ◌∷◌}
use maelstrom.Prelude.Int.{pos}
use maelstrom.Lifecycle.{
  Event, request_done, activity_tick, health_check_tick, context_done, new_container, new_run_loop,
  run,
}
use maelstrom.Lifecycle.Activity.{Counted, run-Counted}
use maelstrom.Lifecycle.Health.{Checked, max_failures, run-Checked}
use maelstrom.Samples.{web}

abbrev history : List Event
history =
    request_done (pos 9) (pos 1)
    ∷ context_done
    ∷ request_done (pos 7) (pos 2)
    ∷ health_check_tick false
    ∷ activity_tick (pos 5)
    ∷ health_check_tick false
    ∷ request_done (pos 3) (pos 1)
    ∷ request_done (pos 2) (pos 1)
    ∷ []

run-Counted_example : Counted history (run history (new_run_loop (pos 1) (new_container 1 web)))
run-Counted_example = run-Counted (pos 1) 1 web history

run-Checked_example :
    Checked (max_failures web) history (run history (new_run_loop (pos 1) (new_container 1 web)))
run-Checked_example = run-Checked (pos 1) 1 web history
