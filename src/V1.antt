-- ===== src/V1.antt =====
-- The data that the parts exchange, pkg/v1/v1.go: the fields that the modelled code reads. The
-- fields that it only copies or compares stand together in `rest`.
use maelstrom.Prelude.{String, Bool, Option, none, some, List, if◌then◌else◌}
use maelstrom.Prelude.Int.{ℤ, pos, leb_ℤ}

pub record DockerComponent : Type 0 where
  pub image : String
  pub http_start_health_check_seconds : ℤ
  pub http_health_check_max_failures : ℤ
  pub idle_timeout_seconds : ℤ
  pub pull_image_on_put : Bool
  pub pull_image_on_start : Bool
  pub reserve_memory_mib : ℤ
  pub rest : String

pub record Component : Type 0 where
  pub name : String
  pub project_name : String
  pub min_instances : ℤ
  pub max_instances : ℤ
  pub max_instances_per_node : ℤ
  pub max_concurrency : ℤ
  pub start_parallelism : String
  pub restart_order : String
  pub version : ℤ
  pub modified_at : ℤ
  pub docker : DockerComponent
  pub rest : String

pub record HttpEventSource : Type 0 where
  pub hostname : String
  pub path_prefix : String
  pub strip_prefix : Bool

pub record CronHttpRequest : Type 0 where
  pub method : String
  pub path : String
  pub rest : String

pub record CronEventSource : Type 0 where
  pub schedule : String
  pub http : CronHttpRequest

-- What the two sources of AWS hold is read by their own pollers alone.
pub record EventSource : Type 0 where
  pub name : String
  pub component_name : String
  pub project_name : String
  pub version : ℤ
  pub modified_at : ℤ
  pub http : Option HttpEventSource
  pub cron : Option CronEventSource
  pub sqs : Option String
  pub awsstepfunc : Option String

pub record ComponentInfo : Type 0 where
  pub component_name : String
  pub component_version : ℤ
  pub status : String
  pub max_concurrency : ℤ
  pub memory_reserved_mib : ℤ
  pub start_time : ℤ
  pub last_request_time : ℤ

-- The load average is only compared: it is a number on any scale.
pub record NodeStatus : Type 0 where
  pub node_id : String
  pub started_at : ℤ
  pub observed_at : ℤ
  pub version : ℤ
  pub peer_url : String
  pub total_memory_mib : ℤ
  pub free_memory_mib : ℤ
  pub load_avg_1m : ℤ
  pub running_components : List ComponentInfo

pub record ComponentTarget : Type 0 where
  pub component_name : String
  pub required_memory_mib : ℤ
  pub target_count : ℤ

-- Without block, which tells whether the caller waits until the targets are reached.
pub record StartStopComponentsInput : Type 0 where
  pub client_node_id : String
  pub target_version : ℤ
  pub target_counts : List ComponentTarget
  pub return_status : Bool

-- Of an event source without a kind the code panics.
abbrev pub get_event_source_type : EventSource → Option String
get_event_source_type e = elim e.http [
  | some h ↦ some "http"
  | none ↦ elim e.cron [
    | some c ↦ some "cron"
    | none ↦ elim e.sqs [
      | some q ↦ some "sqs"
      | none ↦ elim e.awsstepfunc [ some f ↦ some "awsstepfunc" | none ↦ none ]
    ]
  ]
]

-- `HealthCheckSeconds` of pkg/v1/component.go.
abbrev pub health_check_seconds : DockerComponent → ℤ
health_check_seconds d =
    if leb_ℤ d.http_start_health_check_seconds (pos 0)
    then pos 60
    else d.http_start_health_check_seconds

abbrev pub start_parallelism_parallel : String
start_parallelism_parallel = "parallel"

abbrev pub start_parallelism_series : String
start_parallelism_series = "series"

abbrev pub start_parallelism_seriesfirst : String
start_parallelism_seriesfirst = "seriesfirst"

abbrev pub restart_order_startstop : String
restart_order_startstop = "startstop"

abbrev pub restart_order_stopstart : String
restart_order_stopstart = "stopstart"

abbrev pub component_status_stopping : String
component_status_stopping = "stopping"

abbrev pub component_status_active : String
component_status_active = "active"
