-- ===== src/Scale.antt =====
-- Autoscaling, pkg/maelstrom/scale.go.
pub mod Target
pub mod Moves
pub mod Active
mod Examples
use maelstrom.Prelude.{
  ℕ, zero, suc, ◌+◌, ◌≡◌, String, Bool, true, false, ◌&&◌, ◌||◌, not, Option, none, some, List, [],
  ◌∷◌, ◌++◌, Keyed, lookup, insert, ltb, ◌=s=◌, if◌then◌else◌, map, length,
}
use maelstrom.Prelude.Int.{ℤ, pos, negsuc, pos_part, neg_part, ◌+ℤ◌, ◌-ℤ◌, ◌==ℤ◌, ltb_ℤ, leb_ℤ}
use maelstrom.V1.{Component, NodeStatus, ComponentInfo, ComponentTarget, component_status_stopping}
use maelstrom.Placement.{
  PlacementOption, new_placement_option_for_node, count_in, container_count_by_component,
  clone_with_target_delta, ram_used, ram_for_component, has_target, scale_up_down_counts,
}
use maelstrom.Placement.Best.{
  sort, name_less, component_target_less, best_start_component_option, best_stop_component_option,
}

remove_stopping_infos : List ComponentInfo → List ComponentInfo
remove_stopping_infos [] = []
remove_stopping_infos (ci ∷ infos) =
    let rest = remove_stopping_infos infos in
    if ci.status =s= component_status_stopping then rest else ci ∷ rest

pub remove_stopping_from_node : NodeStatus → NodeStatus
unfolding remove_stopping_infos
remove_stopping_from_node node = record node {
  running_components = remove_stopping_infos node.running_components;
}

pub remove_stopping : List NodeStatus → List NodeStatus
remove_stopping nodes = map remove_stopping_from_node nodes

-- The options that only start, that start and stop, and that do neither or only stop.
unfoldable pub group_options_by_type :
    List PlacementOption → List PlacementOption × List PlacementOption × List PlacementOption
group_options_by_type [] = ([], [], [])
group_options_by_type (p ∷ ps) =
    let (start_only, start_stop, stop_only) = group_options_by_type ps in
    let (start, stop) = scale_up_down_counts p in
    if ltb 0 start && ltb 0 stop
    then (start_only, p ∷ start_stop, stop_only)
    else if ltb 0 start
    then (p ∷ start_only, start_stop, stop_only)
    else (start_only, start_stop, p ∷ stop_only)

pub record ComponentConcurrency : Type 0 where
  pub component_name : String
  pub max_instances_per_node : ℤ
  pub current_instances : ℤ
  pub target_instances : ℤ
  pub reserve_memory_mib : ℤ

pub record ComponentDelta : Type 0 where
  pub component_name : String
  pub reserve_memory_mib : ℤ
  pub max_instances_per_node : ℤ
  pub delta : ℤ

pub to_component_deltas : List ComponentConcurrency → List ComponentDelta
to_component_deltas [] = []
to_component_deltas (c ∷ cs) =
    let rest = to_component_deltas cs in
    if c.target_instances ==ℤ c.current_instances
    then rest
    else record {
      component_name = c.component_name;
      reserve_memory_mib = c.reserve_memory_mib;
      max_instances_per_node = c.max_instances_per_node;
      delta = c.target_instances -ℤ c.current_instances;
    }
      ∷ rest

not_in : List ComponentTarget → List ComponentTarget → List ComponentTarget
not_in b [] = []
not_in b (tc ∷ a) =
    let rest = not_in b a in if has_target tc.component_name b then rest else tc ∷ rest

-- The targets of `b`, and of `a` those of components that `b` does not have.
pub merge_target_counts : List ComponentTarget → List ComponentTarget → List ComponentTarget
unfolding not_in
merge_target_counts a b = b ++ not_in b a

abbrev pub with_targets : List ComponentTarget → PlacementOption → PlacementOption
with_targets targets p = record p { input = record p.input { target_counts = targets } }

pub merge_option : Keyed PlacementOption → PlacementOption → PlacementOption
merge_option option_by_node to_merge = elim (lookup to_merge.target_node.node_id option_by_node) [
  | none ↦ to_merge
  | some previous ↦
      with_targets (merge_target_counts to_merge.input.target_counts previous.input.target_counts)
        to_merge
]

abbrev pub put_option : PlacementOption → Keyed PlacementOption → Keyed PlacementOption
put_option p options = insert p.target_node.node_id (merge_option options p) options

-- The loop that stops `n` containers of a component, or as many as there are.
pub stop_many : ℕ → String → Keyed PlacementOption → Keyed PlacementOption
stop_many zero name options = options
stop_many (suc n) name options = elim (best_stop_component_option options name) [
  | none ↦ options
  | some p ↦ stop_many n name (put_option p options)
]

pub start_many : ℕ → ComponentDelta → Keyed PlacementOption → Keyed PlacementOption
start_many zero d options = options
start_many (suc n) d options =
    elim (best_start_component_option options d.component_name d.reserve_memory_mib
      d.max_instances_per_node false) [
        | none ↦ options
        | some p ↦ start_many n d (put_option p options)
      ]

scale_down : List ComponentDelta → Keyed PlacementOption → Keyed PlacementOption
unfolding stop_many
scale_down [] options = options
scale_down (d ∷ deltas) options =
    scale_down deltas (stop_many (neg_part d.delta) d.component_name options)

scale_up : List ComponentDelta → Keyed PlacementOption → Keyed PlacementOption
unfolding start_many
scale_up [] options = options
scale_up (d ∷ deltas) options = scale_up deltas (start_many (pos_part d.delta) d options)

-- `findCompToMove`: the first container of a node, or target, that fits elsewhere.
movable : PlacementOption → Keyed ℤ → ℤ → List String → Option (String × ℤ)
movable p counts free_memory [] = none
movable p counts free_memory (name ∷ names) =
    let rest = movable p counts free_memory names in
    if ltb_ℤ (pos 0) (count_in name counts) && leb_ℤ (ram_for_component name p) free_memory
    then some (name, ram_for_component name p)
    else rest

pub find_comp_to_move : String → ℤ → Keyed PlacementOption → Option (PlacementOption × (String × ℤ))
unfolding movable
find_comp_to_move other_node_id free_memory [] = none
find_comp_to_move other_node_id free_memory ((k, p) ∷ options) =
    let rest = find_comp_to_move other_node_id free_memory options in
    let (counts, total) = container_count_by_component p in
    if not (p.target_node.node_id =s= other_node_id) && ltb_ℤ (pos 1) total
    then elim (movable p counts free_memory (
        map ComponentInfo.component_name p.target_node.running_components
        ++ map ComponentTarget.component_name p.input.target_counts)) [
          | none ↦ rest
          | some found ↦ some (p, found)
        ]
    else rest

abbrev pub clone_targets : String → ℤ → ℤ → PlacementOption → PlacementOption
clone_targets name delta ram p =
    with_targets (clone_with_target_delta name delta ram p).input.target_counts p

-- Move one container to a node that is empty: the two options are changed in place.
pub rebalance_node : NodeStatus → Keyed PlacementOption → Keyed PlacementOption
rebalance_node node options = elim (lookup node.node_id options) [
  | none ↦ options
  | some p ↦
      if ram_used p ==ℤ pos 0
      then elim (find_comp_to_move node.node_id node.total_memory_mib options) [
        | none ↦ options
        | some (from, (name, ram)) ↦
            insert node.node_id (clone_targets name (pos 1) ram p)
              (insert from.target_node.node_id (clone_targets name (negsuc 0) ram from) options)
      ]
      else options
]

rebalance : List NodeStatus → Keyed PlacementOption → Keyed PlacementOption
unfolding rebalance_node
rebalance [] options = options
rebalance (node ∷ nodes) options = rebalance nodes (rebalance_node node options)

first_options : List NodeStatus → Keyed PlacementOption → Keyed PlacementOption
first_options [] options = options
first_options (node ∷ nodes) options =
    first_options nodes (insert node.node_id (new_placement_option_for_node node) options)

changed_options : Keyed PlacementOption → List PlacementOption
changed_options [] = []
changed_options ((k, p) ∷ options) =
    let rest = changed_options options in
    elim p.input.target_counts [
      | [] ↦ rest
      | tc ∷ targets ↦ with_targets (sort component_target_less (tc ∷ targets)) p ∷ rest
    ]

abbrev delta_less : ComponentDelta → ComponentDelta → Bool
delta_less a b = ltb_ℤ a.delta b.delta

abbrev option_by_node_less : PlacementOption → PlacementOption → Bool
option_by_node_less a b = name_less a.target_node.node_id b.target_node.node_id

pub compute_scale_start_stop_inputs : List NodeStatus → List ComponentDelta → List PlacementOption
unfolding scale_down scale_up rebalance first_options changed_options
compute_scale_start_stop_inputs nodes deltas =
    let sorted = sort delta_less deltas in
    sort option_by_node_less (
      changed_options
        (rebalance nodes (scale_up sorted (scale_down sorted (first_options nodes [])))))
