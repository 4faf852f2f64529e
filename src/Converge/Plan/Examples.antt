-- ===== src/Converge/Plan/Examples.antt =====
-- The cases of pkg/converge/converger_test.go, and the theorems about plans at them.
use maelstrom.Prelude.{
  ℕ, ◌≡◌, refl, String, Bool, true, false, not, some, List, [], ◌∷◌, ltb, ◌=s=◌,
}
use maelstrom.Prelude.Int.{ℤ, pos, pos_part, ◌-ℤ◌}
use maelstrom.V1.{
  Component, start_parallelism_parallel, start_parallelism_seriesfirst, restart_order_startstop,
  restart_order_stopstart,
}
use maelstrom.Converge.{
  Container, ComponentTarget, ConvergeStep, start, stop, reason_version_changed, reason_scale_down,
}
use maelstrom.Converge.Plan.{
  plan, scan, stop_reason, alternate, get_start_parallelism, get_restart_order, lock_after,
}
use maelstrom.Converge.Plan.Weave.{in_turn, start_steps, stop_steps, plan-in_turn}

abbrev pub component : ℤ → String → String → Component
component version parallelism order = record {
  name = "foo";
  project_name = "";
  min_instances = pos 0;
  max_instances = pos 0;
  max_instances_per_node = pos 0;
  max_concurrency = pos 1;
  start_parallelism = parallelism;
  restart_order = order;
  version = version;
  modified_at = pos 0;
  docker = record {
    image = "coopernurse/foo";
    http_start_health_check_seconds = pos 0;
    idle_timeout_seconds = pos 0;
    http_health_check_max_failures = pos 1;
    pull_image_on_put = false;
    pull_image_on_start = false;
    reserve_memory_mib = pos 128;
    rest = "";
  };
  rest = "";
}

abbrev pub container : ℕ → Component → Container
container id c = record {
  id = id;
  status = "active";
  terminate_reason = "";
  component = c;
  container_id = "";
}

abbrev target_of : ℕ → Component → ComponentTarget
target_of count c = record { component = c; count = pos count }

abbrev old : Component
old = component (pos 1) "" ""

abbrev two_old : List Container
two_old = container 1 old ∷ container 2 old ∷ []

abbrev starts : Component → Bool → ConvergeStep
starts c lock = start (record { component = c; lock = lock })

abbrev stops : ℕ → String → ConvergeStep
stops id reason = stop (record { container_id = id; reason = reason })

scale_down :
    plan two_old (target_of 1 old)
    ≡ some (record { pull = false; steps = stops 2 reason_scale_down ∷ [] })
unfolding plan scan stop_reason alternate get_start_parallelism get_restart_order ◌-ℤ◌
scale_down = refl

-- A rolling deploy under "seriesfirst" with a stop first, and one with a scale up.
abbrev v4 : Component
v4 = component (pos 4) start_parallelism_seriesfirst restart_order_stopstart

rolling_deploy :
    plan two_old (target_of 2 v4)
    ≡ some (record {
      pull = true;
      steps =
          stops 1 reason_version_changed
          ∷ starts v4 true
          ∷ stops 2 reason_version_changed
          ∷ starts v4 false
          ∷ [];
    })
unfolding plan scan stop_reason alternate lock_after get_start_parallelism get_restart_order ◌-ℤ◌
rolling_deploy = refl

abbrev v5 : Component
v5 = component (pos 4) start_parallelism_seriesfirst restart_order_startstop

deploy_and_scale_up :
    plan two_old (target_of 4 v5)
    ≡ some (record {
      pull = true;
      steps =
          starts v5 true
          ∷ stops 1 reason_version_changed
          ∷ starts v5 false
          ∷ stops 2 reason_version_changed
          ∷ starts v5 false
          ∷ starts v5 false
          ∷ [];
    })
unfolding plan scan stop_reason alternate lock_after get_start_parallelism get_restart_order ◌-ℤ◌
deploy_and_scale_up = refl

abbrev PlanOf : List Container → ComponentTarget → Type 0
PlanOf containers target =
    let (stopped, kept) = scan target 0 containers in
    let n = pos_part (target.count -ℤ pos kept) in
    let c = target.component in
    plan containers target
    ≡ some (record {
      pull = ltb 0 n;
      steps =
          in_turn (get_restart_order c =s= restart_order_startstop)
            (start_steps c (not (get_start_parallelism c =s= start_parallelism_parallel)) n)
            (stop_steps stopped);
    })

plan-in_turn_example : PlanOf two_old (target_of 2 v4)
plan-in_turn_example = plan-in_turn two_old (target_of 2 v4)
