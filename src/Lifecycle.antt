-- ===== src/Lifecycle.antt =====
-- One container, pkg/converge/container.go: its start, its run loop with the request counters and the
-- health checks, and its end. Docker, HTTP and the clock answer as arguments.
pub mod Activity
pub mod Health
mod Examples
use maelstrom.Prelude.{
  ℕ, zero, suc, ◌+◌, ◌-◌, ◌≡◌, String, Bool, true, false, Option, none, some, List, [], ◌∷◌, take,
  leb, ◌=s=◌, if◌then◌else◌,
}
use maelstrom.Prelude.Int.{ℤ, pos, pos_part, ◌+ℤ◌, ◌-ℤ◌, leb_ℤ, ltb_ℤ}
use maelstrom.V1.{Component, component_status_stopping, component_status_active}

abbrev pub component_status_starting : String
component_status_starting = "starting"

-- `maxConcurrency`
pub max_concurrency : Component → ℤ
max_concurrency c = if leb_ℤ c.max_concurrency (pos 0) then pos 1 else c.max_concurrency

-- The concurrency is the quotient of the requests' durations and the time that passed, which stays a
-- quotient here.
pub record ComponentActivity : Type 0 where
  pub requests : ℤ
  pub concurrency : ℤ × ℤ

-- Times are in nanoseconds. `stops` counts the calls of JoinAndStop that health checks started.
pub record Container : Type 0 where
  pub id : ℕ
  pub status : String
  pub component : Component
  pub container_id : String
  pub last_req_time : ℤ
  pub total_requests : ℤ
  pub activity : List ComponentActivity
  pub health_check_failures : ℕ
  pub health_check_max_failures : ℕ
  pub stops : ℕ

pub new_container : ℕ → Component → Container
new_container id component =
    let failures = component.docker.http_health_check_max_failures in
    record {
      id = id;
      status = component_status_starting;
      component = component;
      container_id = "";
      last_req_time = pos 0;
      total_requests = pos 0;
      activity = [];
      health_check_failures = 0;
      health_check_max_failures = if leb_ℤ failures (pos 0) then 1 else pos_part failures;
      stops = 0;
    }

pub set_status : String → Container → Container
set_status status c = record c { status = status }

-- The variables of `run`.
pub record RunLoop : Type 0 where
  pub container : Container
  pub duration_since_rollover : ℤ
  pub rollover_start_time : ℤ
  pub previous_total_requests : ℤ
  pub running : Bool

pub new_run_loop : ℤ → Container → RunLoop
new_run_loop now c = record {
  container = c;
  duration_since_rollover = pos 0;
  rollover_start_time = now;
  previous_total_requests = pos 0;
  running = true;
}

bump_req_stats : ℤ → Container → Container
bump_req_stats now c = record c { last_req_time = now; total_requests = c.total_requests +ℤ pos 1 }

append_activity : ℤ → ℤ → ℤ → ℤ → Container → Container
append_activity previous_total now rollover_start_time total_duration c =
    let activity : ComponentActivity = record {
      requests = c.total_requests -ℤ previous_total;
      concurrency = (total_duration, now -ℤ rollover_start_time);
    } in
    record c { activity = take 10 (activity ∷ c.activity) }

-- The check's answer is whether the URL gave status 200.
run_health_check : Bool → Container → Container
run_health_check true c = record c { health_check_failures = 0 }
run_health_check false c =
    if leb c.health_check_max_failures (suc c.health_check_failures)
    then record c { health_check_failures = 0; stops = suc c.stops }
    else record c { health_check_failures = suc c.health_check_failures }

-- What the select of the loop receives.
pub data Event : Type 0 where
  request_done : ℤ → ℤ → Event
  activity_tick : ℤ → Event
  health_check_tick : Bool → Event
  context_done : Event

handle : Event → RunLoop → RunLoop
unfolding bump_req_stats append_activity run_health_check
handle (request_done now duration) l =
    let bumped = record l { container = bump_req_stats now l.container } in
    if ltb_ℤ duration (pos 0)
    then bumped
    else record bumped { duration_since_rollover = l.duration_since_rollover +ℤ duration }
handle (activity_tick now) l = record l {
  container =
      append_activity l.previous_total_requests now l.rollover_start_time l.duration_since_rollover
        l.container;
  previous_total_requests = l.container.total_requests;
  rollover_start_time = now;
  duration_since_rollover = pos 0;
}
handle (health_check_tick is_ok) l = record l { container = run_health_check is_ok l.container }
handle context_done l = record l { running = false }

-- The loop after the events of a history, the newest first.
pub run : List Event → RunLoop → RunLoop
unfolding handle
run [] l = l
run (e ∷ before) l = let here = run before l in if here.running then handle e here else here
