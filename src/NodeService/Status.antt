-- ===== src/NodeService/Status.antt =====
-- What a node tells of itself, pkg/maelstrom/node_svc.go: resolveNodeStatus and the operations that store
-- and send the status.
pub mod Memory
mod Examples
use maelstrom.Prelude.{
  ◌≡◌, String, Bool, true, false, Option, none, some, List, [], ◌∷◌, Keyed, if◌then◌else◌,
}
use maelstrom.Prelude.Int.{ℤ, pos, ◌-ℤ◌, ltb_ℤ, leb_ℤ}
use maelstrom.V1.{NodeStatus, ComponentInfo}
use maelstrom.Placement.Best.{sort}
use maelstrom.Cluster.{Cluster, set_node, remove_node}
use maelstrom.Db.Rows.{NodeStatusRow, StatusFaults, DbResult, ok, err, put_node_status}

pub record Node : Type 0 where
  pub node_id : String
  pub peer_url : String
  pub start_time_millis : ℤ
  pub total_mem_allowed : ℤ
  pub terminated : Bool
  pub cluster : Cluster

-- What the node reads when it resolves its status: the state of the converge registry, the clock, the
-- memory in MiB as total and available, and the load. `none` is an error.
pub record Readings : Type 0 where
  pub version : ℤ
  pub infos : List ComponentInfo
  pub now : ℤ
  pub meminfo : Option (ℤ × ℤ)
  pub loadavg : Option ℤ

-- The total and the free memory under the limit of `totalMemAllowed`.
pub limited_memory : ℤ → ℤ × ℤ → ℤ × ℤ
limited_memory allowed (total, free) =
    let delta = total -ℤ allowed in
    if leb_ℤ (pos 0) allowed
    then if ltb_ℤ (pos 0) delta
      then (total -ℤ delta, if ltb_ℤ (free -ℤ delta) (pos 0) then pos 0 else free -ℤ delta)
      else (total, free)
    else (total, free)

unfoldable pub resolve_node_status : Readings → Node → Option NodeStatus
unfolding limited_memory
resolve_node_status readings n = elim readings.meminfo [
  | none ↦ none
  | some memory ↦ elim readings.loadavg [
    | none ↦ none
    | some load ↦ some (record {
      node_id = n.node_id;
      started_at = n.start_time_millis;
      observed_at = readings.now;
      version = readings.version;
      peer_url = n.peer_url;
      total_memory_mib = (limited_memory n.total_mem_allowed memory).0;
      free_memory_mib = (limited_memory n.total_mem_allowed memory).1;
      load_avg_1m = load;
      running_components = readings.infos;
    })
  ]
]

is_ok : {A : Type 0} → DbResult A → Bool
is_ok (ok a) = true
is_ok (err e) = false

-- `logStatus`: the table of statuses afterwards, and whether there was no error.
pub log_status : Readings → StatusFaults → Node → Keyed NodeStatusRow → Keyed NodeStatusRow × Bool
unfolding resolve_node_status
log_status readings faults n t =
    if n.terminated then (t, true) else elim (resolve_node_status readings n) [
      | none ↦ (t, false)
      | some status ↦
          let (logged, result) = put_node_status faults (λ rows. rows) status t in
          (logged, is_ok result)
    ]

-- `resolveAndBroadcastNodeStatus`; the status is sent to the remote nodes of the cluster.
pub resolve_and_broadcast_node_status :
    Readings
    → StatusFaults
    → Node
    → Keyed NodeStatusRow
    → Node × Keyed NodeStatusRow × Option NodeStatus × Bool
unfolding resolve_node_status
resolve_and_broadcast_node_status readings faults n t =
    if n.terminated then (n, t, none, true) else elim (resolve_node_status readings n) [
      | none ↦ (n, t, none, false)
      | some status ↦
          let (logged, result) = put_node_status faults (λ rows. rows) status t in
          if is_ok result
          then (record n { cluster = (set_node status n.cluster).0 }, logged, some status, true)
          else (n, logged, none, false)
    ]

-- `StatusChanged` of another node, without a status where it exits.
pub status_changed : Bool → String → NodeStatus → Node → Node
status_changed exiting node_id status n =
    if exiting
    then record n { cluster = (remove_node node_id n.cluster).0 }
    else record n { cluster = (set_node status n.cluster).0 }

-- `NodeStatusByStartedAt`
abbrev pub started_before : NodeStatus → NodeStatus → Bool
started_before a b = ltb_ℤ a.started_at b.started_at

statuses : Keyed NodeStatus → List NodeStatus
statuses [] = []
statuses ((k, s) ∷ nodes) = s ∷ statuses nodes

-- `GetNodes` of the cluster.
unfoldable pub get_nodes : Cluster → List NodeStatus
unfolding statuses
get_nodes c = statuses c.nodes_by_id

-- The answers of the nodes that were asked: each that answers is taken into the cluster, and one error
-- makes the whole refresh fail.
refreshed :
    (NodeStatus → Option NodeStatus)
    → List NodeStatus
    → Cluster
    → Cluster × Option (List NodeStatus)
refreshed ask [] c = (c, some [])
refreshed ask (node ∷ nodes) c = elim (ask node) [
  | none ↦ let (after, more) = refreshed ask nodes c in (after, none)
  | some status ↦
      let (after, more) = refreshed ask nodes (set_node status c).0 in
      (after, elim more [ none ↦ none | some found ↦ some (status ∷ found) ])
]

pub refresh_nodes : (NodeStatus → Option NodeStatus) → Cluster → Cluster × Option (List NodeStatus)
unfolding get_nodes refreshed
refresh_nodes ask c = refreshed ask (get_nodes c) c

-- `ListNodeStatus`; an error is `none`.
pub list_node_status :
    (NodeStatus → Option NodeStatus) → Bool → Cluster → Cluster × Option (List NodeStatus)
unfolding refresh_nodes
list_node_status ask force_refresh c =
    let (after, found) = if force_refresh then refresh_nodes ask c else (c, some (get_nodes c)) in
    (after, elim found [ none ↦ none | some nodes ↦ some (sort started_before nodes) ])
