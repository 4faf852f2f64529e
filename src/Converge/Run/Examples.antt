-- ===== src/Converge/Run/Examples.antt =====
-- A rolling deploy, run with side effects that succeed, and the theorems about runs at it.
use maelstrom.Prelude.{
  ℕ, ◌+◌, ◌≡◌, ◌≢◌, refl, String, Bool, true, false, some, none, List, [], ◌∷◌, ◌++◌, All, length,
  arith, name_iff,
}
use maelstrom.Prelude.Int.{ℤ, pos}
use maelstrom.V1.{Component, start_parallelism_series, restart_order_stopstart}
use maelstrom.Converge.{Container, StartStep}
use maelstrom.Converge.Plan.Outcome.{Matches, keep}
use maelstrom.Converge.Run.{
  Converger, Hooks, release, converge, start_step, start_failed, notified, created, locked,
}
use maelstrom.Converge.Run.Success.{Succeeds, Ready, IsNew}
use maelstrom.Converge.Run.Target.{converge_reaches_target}
use maelstrom.Converge.Run.Failure.{start_step_failure}

abbrev component : ℤ → Component
component version = record {
  name = "foo";
  project_name = "";
  min_instances = pos 0;
  max_instances = pos 0;
  max_instances_per_node = pos 0;
  max_concurrency = pos 1;
  start_parallelism = start_parallelism_series;
  restart_order = restart_order_stopstart;
  version = version;
  modified_at = pos 0;
  docker = record {
    image = "coopernurse/foo";
    http_start_health_check_seconds = pos 0;
    idle_timeout_seconds = pos 0;
    http_health_check_max_failures = pos 1;
    pull_image_on_put = false;
    pull_image_on_start = false;
    reserve_memory_mib = pos 128;
    rest = "";
  };
  rest = "";
}

abbrev container : ℕ → String → Component → Container
container id docker_id c = record {
  id = id;
  status = "active";
  terminate_reason = "";
  component = c;
  container_id = docker_id;
}

-- Ids count up from 10 with the calls; every start ends as `healthy` says.
abbrev hooks_with : Bool → Hooks
hooks_with healthy = record {
  pull_image = λ n c. true;
  start_lock_acquire = λ n c. release true;
  create_container = λ n c. container (10 + n) "" c;
  start_and_health_check = λ n cn. ("docker", healthy);
}

abbrev deploy : Converger
deploy = record {
  current_target = record { component = component (pos 2); count = pos 2 };
  containers = container 1 "a" (component (pos 1)) ∷ container 2 "b" (component (pos 1)) ∷ [];
  calls = 0;
  effects = [];
}

docker-ne-unused : ◌≢◌ {A = String} "docker" "unused"
docker-ne-unused = ground (arith, name_iff "docker" "unused")

hooks-Succeeds : Succeeds (hooks_with true)
hooks-Succeeds = record {
  pulls = λ n c. refl;
  locks = λ n c. (true, refl);
  starts = λ n cn. refl;
  docker_ids = λ n cn. docker-ne-unused;
  component = λ n c. refl;
  unmarked = λ n c. refl;
  fresh = λ m n c d h. omega arith;
}

deploy-Ready : Ready (hooks_with true) deploy
deploy-Ready = record {
  distinct = omega arith;
  docker_ids = (ground (arith, name_iff "a" "unused"), (ground (arith, name_iff "b" "unused"), tt));
  later = λ n comp h. omega arith;
}

converge_reaches_target_example :
    let (d, err) = converge (hooks_with true) deploy in
    (err ≡ none)
    × (added : List Container) × (d.containers
        ≡ keep deploy.current_target 0 deploy.containers ++ added)
    × All (Matches deploy.current_target) (keep deploy.current_target 0 deploy.containers)
    × All (IsNew (component (pos 2))) added
    × (length d.containers ≡ 2)
converge_reaches_target_example =
    converge_reaches_target (hooks_with true) deploy hooks-Succeeds deploy-Ready

abbrev locked_start : StartStep
locked_start = record { component = component (pos 2); lock = true }

start_step_failure_example :
    let (d, err) = start_step (hooks_with false) locked_start deploy in
    (err ≡ some start_failed)
    × (d.containers ≡ deploy.containers)
    × (d.effects ≡ notified ∷ notified ∷ created 11 ∷ locked (component (pos 2)) true ∷ [])
start_step_failure_example =
    start_step_failure (hooks_with false) locked_start deploy true refl refl refl (omega arith) (
      (omega arith, λ _. ground (arith, name_iff "a" "docker")),
      ((omega arith, λ _. ground (arith, name_iff "b" "docker")), tt),
    )
