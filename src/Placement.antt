-- ===== src/Placement.antt =====
-- Where containers start and stop, pkg/maelstrom/placement.go. Both pointers of an option are set:
-- newPlacementOptionForNode makes every option.
pub mod Counts
pub mod Memory
pub mod Growth
pub mod Best
use maelstrom.Prelude.{
  ℕ, zero, suc, ◌+◌, ◌≡◌, String, Bool, true, false, ◌&&◌, ◌||◌, not, Option, none, some, List, [],
  ◌∷◌, ◌++◌, Keyed, lookup, insert, ◌=s=◌, if◌then◌else◌,
}
use maelstrom.Prelude.Int.{ℤ, pos, ◌+ℤ◌, ◌-ℤ◌, ◌*ℤ◌, ◌==ℤ◌, ltb_ℤ, leb_ℤ}
use maelstrom.V1.{NodeStatus, ComponentInfo, ComponentTarget, StartStopComponentsInput}

pub record PlacementOption : Type 0 where
  pub target_node : NodeStatus
  pub input : StartStopComponentsInput

pub new_placement_option_for_node : NodeStatus → PlacementOption
new_placement_option_for_node node = record {
  target_node = node;
  input = record {
    client_node_id = "";
    target_version = node.version;
    target_counts = [];
    return_status = true;
  };
}

-- `m[k]` of a Go map of numbers.
abbrev pub count_in : String → Keyed ℤ → ℤ
count_in k m = elim (lookup k m) [ none ↦ pos 0 | some n ↦ n ]

pub count_running : List ComponentInfo → Keyed ℤ → Keyed ℤ
count_running [] by_comp = by_comp
count_running (ci ∷ infos) by_comp =
    count_running infos
      (insert ci.component_name (count_in ci.component_name by_comp +ℤ pos 1) by_comp)

pub count_targets : List ComponentTarget → Keyed ℤ → Keyed ℤ
count_targets [] by_comp = by_comp
count_targets (tc ∷ targets) by_comp =
    count_targets targets (insert tc.component_name tc.target_count by_comp)

total_running : List ComponentInfo → ℤ → ℤ
total_running [] total = total
total_running (ci ∷ infos) total = total_running infos (total +ℤ pos 1)

total_targets : List ComponentTarget → Keyed ℤ → ℤ → ℤ
total_targets [] by_comp total = total
total_targets (tc ∷ targets) by_comp total =
    total_targets targets (insert tc.component_name tc.target_count by_comp) (
      elim (lookup tc.component_name by_comp) [ none ↦ total | some old ↦ total -ℤ old ]
      +ℤ tc.target_count)

unfoldable pub container_count_by_component : PlacementOption → Keyed ℤ × ℤ
unfolding count_running count_targets total_running total_targets
container_count_by_component p =
    let running = count_running p.target_node.running_components [] in
    (
      count_targets p.input.target_counts running,
      total_targets p.input.target_counts running
          (total_running p.target_node.running_components (pos 0)),
    )

-- The targets of the other components, and the count of the component's own last target.
pub other_targets : String → List ComponentTarget → List ComponentTarget
other_targets name [] = []
other_targets name (tc ∷ targets) =
    let rest = other_targets name targets in if tc.component_name =s= name then rest else tc ∷ rest

unfoldable pub own_count : String → List ComponentTarget → ℤ → ℤ
own_count name [] current = current
own_count name (tc ∷ targets) current =
    own_count name targets (if tc.component_name =s= name then tc.target_count else current)

-- -1 stands for no target of the component.
unfoldable pub clone_with_target_delta : String → ℤ → ℤ → PlacementOption → PlacementOption
unfolding other_targets own_count container_count_by_component
clone_with_target_delta name delta required_ram p =
    let own = own_count name p.input.target_counts (pos 0 -ℤ pos 1) in
    let current =
      if ltb_ℤ own (pos 0) then count_in name (container_count_by_component p).0 else own in
    record {
      target_node = p.target_node;
      input = record {
        client_node_id = p.input.client_node_id;
        target_version = p.target_node.version;
        return_status = p.input.return_status;
        target_counts =
            other_targets name p.input.target_counts
            ++ record {
              component_name = name;
              required_memory_mib = required_ram;
              target_count = current +ℤ delta;
            }
              ∷ [];
      };
    }

unfoldable pub has_target : String → List ComponentTarget → Bool
has_target name [] = false
has_target name (tc ∷ targets) =
    let rest = has_target name targets in if tc.component_name =s= name then true else rest

pub ram_of_targets : List ComponentTarget → ℤ
ram_of_targets [] = pos 0
ram_of_targets (tc ∷ targets) =
    (tc.target_count *ℤ tc.required_memory_mib) +ℤ ram_of_targets targets

pub ram_of_running : List ComponentTarget → List ComponentInfo → ℤ
unfolding has_target
ram_of_running targets [] = pos 0
ram_of_running targets (ci ∷ infos) =
    let rest = ram_of_running targets infos in
    if has_target ci.component_name targets then rest else ci.memory_reserved_mib +ℤ rest

-- Containers of a component that has a target count by their target.
pub ram_used : PlacementOption → ℤ
unfolding ram_of_targets ram_of_running
ram_used p =
    ram_of_targets p.input.target_counts
    +ℤ ram_of_running p.input.target_counts p.target_node.running_components

max_running_ram : String → List ComponentInfo → ℤ → ℤ
max_running_ram name [] max_ram = max_ram
max_running_ram name (ci ∷ infos) max_ram = max_running_ram name infos (
    if name =s= ci.component_name && ltb_ℤ max_ram ci.memory_reserved_mib
    then ci.memory_reserved_mib
    else max_ram)

max_target_ram : String → List ComponentTarget → ℤ → ℤ
max_target_ram name [] max_ram = max_ram
max_target_ram name (tc ∷ targets) max_ram = max_target_ram name targets (
    if name =s= tc.component_name && ltb_ℤ max_ram tc.required_memory_mib
    then tc.required_memory_mib
    else max_ram)

pub ram_for_component : String → PlacementOption → ℤ
unfolding max_running_ram max_target_ram
ram_for_component name p =
    let max_ram =
      max_target_ram name p.input.target_counts
        (max_running_ram name p.target_node.running_components (pos 0)) in
    if max_ram ==ℤ pos 0 then pos 128 else max_ram

up_down : Keyed ℤ → List ComponentTarget → ℕ × ℕ
up_down by_comp [] = (0, 0)
up_down by_comp (tc ∷ targets) =
    let (up, down) = up_down by_comp targets in
    if ltb_ℤ tc.target_count (count_in tc.component_name by_comp)
    then (up, suc down)
    else if ltb_ℤ (count_in tc.component_name by_comp) tc.target_count
    then (suc up, down)
    else (up, down)

unfoldable pub scale_up_down_counts : PlacementOption → ℕ × ℕ
unfolding up_down count_running
scale_up_down_counts p =
    up_down (count_running p.target_node.running_components []) p.input.target_counts
