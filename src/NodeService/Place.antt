-- ===== src/NodeService/Place.antt =====
-- Placing a component on some node, placeComponentInternal and placeComponentTryOnce of
-- pkg/maelstrom/node_svc.go. The other nodes and the database answer as arguments.
pub mod Evidence
pub mod Placed
mod Examples
use Prim.Native.String.{◌++◌ as ◌<>◌}
use maelstrom.Prelude.{
  ℕ, suc, ◌≡◌, String, Bool, true, false, ◌&&◌, not, Option, none, some, List, [], ◌∷◌, ◌++◌, Keyed,
  insert, ◌==◌, ◌=s=◌, if◌then◌else◌,
}
use maelstrom.Prelude.Int.{ℤ, pos, leb_ℤ, ltb_ℤ}
use maelstrom.V1.{Component, ComponentInfo, NodeStatus, component_status_stopping}
use maelstrom.Placement.{PlacementOption, new_placement_option_for_node}
use maelstrom.Placement.Best.{best_start_component_option}
use maelstrom.Cluster.{Cluster, set_node}
use maelstrom.Db.Rows.{
  DbResult, DbError, ok, err, not_found, failure, already_exists, incorrect_previous_version,
}
use maelstrom.MaelService.{Rpc, replied, refused, panicked, misc_error}
use maelstrom.NodeService.Status.{get_nodes}

-- The answer to StartStopComponents. `errors` counts the errors that it reports.
pub record StartReply : Type 0 where
  pub failed : Bool
  pub version_mismatch : Bool
  pub target_status : Option NodeStatus
  pub errors : ℕ

-- What one try meets: the statuses that the nodes answer with, the answer to the start, the component as it
-- is then, and the statuses of each second of the wait. `none` is an error.
pub record Round : Type 0 where
  pub get_status : NodeStatus → Option NodeStatus
  pub start_stop : PlacementOption → StartReply
  pub component : DbResult Component
  pub polls : List (Option NodeStatus)

pub data Outcome : Type 0 where
  placed : NodeStatus → Outcome
  gave_up : Outcome
  try_again : Outcome
  crashed : Outcome

pub large_nodes : ℤ → List NodeStatus → List NodeStatus
large_nodes required [] = []
large_nodes required (n ∷ nodes) =
    let rest = large_nodes required nodes in
    if ltb_ℤ required n.total_memory_mib then n ∷ rest else rest

-- Once for each container of the component.
pub for_each_info : String → NodeStatus → List ComponentInfo → List NodeStatus
for_each_info name node [] = []
for_each_info name node (c ∷ infos) =
    let rest = for_each_info name node infos in
    if c.component_name =s= name then node ∷ rest else rest

pub nodes_with_component : String → List NodeStatus → List NodeStatus
unfolding for_each_info
nodes_with_component name [] = []
nodes_with_component name (n ∷ nodes) =
    for_each_info name n n.running_components ++ nodes_with_component name nodes

pub is_started : String → List ComponentInfo → Bool
is_started name [] = false
is_started name (c ∷ infos) =
    let rest = is_started name infos in
    if c.component_name =s= name && not (c.status =s= component_status_stopping) then true else rest

pub runs_component : String → List ComponentInfo → Bool
runs_component name [] = false
runs_component name (c ∷ infos) =
    let rest = runs_component name infos in if c.component_name =s= name then true else rest

-- The nodes that should have the component are asked, until one has it.
pub confirm :
    (NodeStatus → Option NodeStatus)
    → String
    → List NodeStatus
    → Cluster
    → Cluster × Option NodeStatus
unfolding is_started
confirm ask name [] c = (c, none)
confirm ask name (n ∷ nodes) c = elim (ask n) [
  | none ↦ confirm ask name nodes c
  | some status ↦
      let known = (set_node status c).0 in
      let rest = confirm ask name nodes known in
      if is_started name status.running_components then (known, some status) else rest
]

pub new_placement_options_by_node_id :
    List NodeStatus → Keyed PlacementOption → Keyed PlacementOption
new_placement_options_by_node_id [] by_id = by_id
new_placement_options_by_node_id (n ∷ nodes) by_id =
    new_placement_options_by_node_id nodes
      (insert n.node_id (new_placement_option_for_node n) by_id)

pub wait_until_component_running :
    String → List (Option NodeStatus) → NodeStatus → NodeStatus × Bool
unfolding runs_component
wait_until_component_running name [] status = (status, false)
wait_until_component_running name (none ∷ polls) status =
    if runs_component name status.running_components then (status, true) else (status, false)
wait_until_component_running name (some next ∷ polls) status =
    let rest = wait_until_component_running name polls next in
    if runs_component name status.running_components then (status, true) else rest

-- After a start without errors.
confirm_started : String → Round → Option NodeStatus → Cluster → Cluster × Outcome
unfolding wait_until_component_running
confirm_started name round status c = elim round.component [
  | err e ↦ (c, gave_up)
  | ok comp ↦ elim status [
    | none ↦ (c, crashed)
    | some target ↦
        let (updated, running) = wait_until_component_running comp.name round.polls target in
        if running then ((set_node updated c).0, placed target) else (c, try_again)
  ]
]

is_there : Option NodeStatus → Bool
is_there none = false
is_there (some s) = true

after_start : String → Round → StartReply → Cluster → Cluster × Outcome
unfolding confirm_started is_there
after_start name round reply c =
    let known : Cluster = elim reply.target_status [ none ↦ c | some s ↦ (set_node s c).0 ] in
    if reply.failed
    then (known, try_again)
    else if reply.version_mismatch && is_there reply.target_status
    then (known, try_again)
    else if reply.errors == 0
    then confirm_started name round reply.target_status known
    else (known, try_again)

-- The client's id and the wish to block, which the options get before they are sent, are not read here.
start_best : String → ℤ → ℤ → Round → List NodeStatus → Cluster → Cluster × Outcome
unfolding after_start new_placement_options_by_node_id
start_best name required max_inst round [] c = (c, gave_up)
start_best name required max_inst round (n ∷ nodes) c =
    elim (best_start_component_option (new_placement_options_by_node_id (n ∷ nodes) []) name
      required max_inst true) [
        | none ↦ (c, gave_up)
        | some option ↦ after_start name round (round.start_stop option) c
      ]

pub place_component_try_once : String → ℤ → ℤ → Round → Cluster → Cluster × Outcome
unfolding confirm start_best large_nodes nodes_with_component
place_component_try_once name required max_inst round c =
    let all_nodes = get_nodes c in
    let (known, found) = confirm round.get_status name (nodes_with_component name all_nodes) c in
    elim found [
      | some status ↦ (known, placed status)
      | none ↦ start_best name required max_inst round (large_nodes required all_nodes) known
    ]

-- The tries until the deadline; each pair has what happens to the cluster before the try.
pub tries : String → ℤ → ℤ → List (Round × (Cluster → Cluster)) → Cluster → Cluster × Rpc NodeStatus
unfolding place_component_try_once
tries name required max_inst [] c =
    (c, refused misc_error "nodesvc: PlaceComponent deadline reached - component not started")
tries name required max_inst ((round, meanwhile) ∷ rounds) c =
    let (after, outcome) = place_component_try_once name required max_inst round (meanwhile c) in
    elim outcome [
      | placed status ↦ (after, replied status)
      | gave_up ↦ (after, refused misc_error "nodesvc: PlaceComponent:placeComponent error")
      | try_again ↦ tries name required max_inst rounds after
      | crashed ↦ (after, panicked)
    ]

get_error : String → DbError → Rpc NodeStatus
get_error name not_found = refused (pos 1003) ("No Component found with name: " <> name)
get_error name failure = refused misc_error "nodesvc: PlaceComponent:GetComponent error"
get_error name already_exists = refused misc_error "nodesvc: PlaceComponent:GetComponent error"
get_error name incorrect_previous_version =
    refused misc_error "nodesvc: PlaceComponent:GetComponent error"

pub required_ram : Component → ℤ
required_ram c =
    if leb_ℤ c.docker.reserve_memory_mib (pos 0) then pos 128 else c.docker.reserve_memory_mib

pub place_component_internal :
    String
    → DbResult Component
    → List (Round × (Cluster → Cluster))
    → Cluster
    → Cluster × Rpc NodeStatus
unfolding tries get_error required_ram
place_component_internal name (err e) rounds c = (c, get_error name e)
place_component_internal name (ok comp) rounds c =
    tries name (required_ram comp) comp.max_instances_per_node rounds c
