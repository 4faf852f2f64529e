-- ===== src/CompLock/Examples.antt =====
-- A component that is started first in series.
use maelstrom.Prelude.{false, [], ◌∷◌}
use maelstrom.Prelude.Int.{pos}
use maelstrom.V1.{Component}
use maelstrom.Db.Roles.Acquire.{quiet}
use maelstrom.CompLock.{Store, Round, start_lock_acquire}
use maelstrom.CompLock.Answers.{LockOutcome, start_lock_acquire_outcome}

abbrev web : Component
web = record {
  name = "web";
  project_name = "shop";
  min_instances = pos 1;
  max_instances = pos 3;
  max_instances_per_node = pos 0;
  max_concurrency = pos 5;
  start_parallelism = "seriesfirst";
  restart_order = "startstop";
  version = pos 1;
  modified_at = pos 0;
  docker = record {
    image = "web:1";
    http_start_health_check_seconds = pos 10;
    idle_timeout_seconds = pos 60;
    http_health_check_max_failures = pos 1;
    pull_image_on_put = false;
    pull_image_on_start = false;
    reserve_memory_mib = pos 128;
    rest = "";
  };
  rest = "";
}

abbrev round : Round
round = record {
  count_fails = false;
  attempts = (quiet 10, λ t. t) ∷ [];
  context_done = false;
  asleep = λ s. s;
}

abbrev empty_store : Store
empty_store = record { roles = []; starts = [] }

start_lock_acquire_outcome_example :
    LockOutcome "n1" web (start_lock_acquire "n1" web (round ∷ []) empty_store)
start_lock_acquire_outcome_example = start_lock_acquire_outcome "n1" web (round ∷ []) empty_store
