-- ===== src/Placement/Best.antt =====
-- The best node to start or stop a container on, pkg/maelstrom/placement.go, with the orders of
-- pkg/maelstrom/sort.go. sort.Sort is an insertion sort: where two elements compare neither way
-- the library may order them otherwise.
pub mod Sorting
pub mod Outcome
pub mod Ordered
mod Examples
use maelstrom.Prelude.{
  ℕ, zero, suc, ◌+◌, ◌≡◌, String, Bool, true, false, ◌&&◌, ◌||◌, not, Option, none, some, List, [],
  ◌∷◌, Keyed, lookup, insert, ltb, ◌==◌, ◌=s=◌, if◌then◌else◌,
}
use Prim.Native.String.{compare}
use Prim.Native.Nat.{Ordering}
use maelstrom.Prelude.Int.{ℤ, pos, ◌+ℤ◌, ◌-ℤ◌, ◌==ℤ◌, ltb_ℤ, leb_ℤ}
use maelstrom.V1.{NodeStatus, ComponentInfo, ComponentTarget, StartStopComponentsInput}
use maelstrom.Placement.{
  PlacementOption, count_in, container_count_by_component, clone_with_target_delta, ram_used,
  ram_for_component, scale_up_down_counts,
}

module _ {A : Type 0} (less : A → A → Bool) where
  unfoldable pub insert_sorted : A → List A → List A
  insert_sorted x [] = x ∷ []
  insert_sorted x (y ∷ ys) =
      let rest = insert_sorted x ys in if less y x then y ∷ rest else x ∷ (y ∷ ys)

  unfoldable pub sort : List A → List A
  unfolding insert_sorted
  sort [] = []
  sort (x ∷ xs) = insert_sorted x (sort xs)

-- Go's `<` on strings, for names.
abbrev pub name_less : String → String → Bool
name_less s t = elim (compare s t) [ Ordering.lt ↦ true | _ ↦ false ]

abbrev pub component_target_less : ComponentTarget → ComponentTarget → Bool
component_target_less a b = name_less a.component_name b.component_name

-- The map of instance counts that BestStartComponentOption passes is always empty.
pub component_info_less : Keyed ℤ → ComponentInfo → ComponentInfo → Bool
component_info_less counts a b =
    let i = count_in a.component_name counts in
    let j = count_in b.component_name counts in
    if ltb_ℤ j i
    then true
    else if ltb_ℤ i j
    then false
    else ltb_ℤ b.last_request_time a.last_request_time

-- Fewer containers of the component first, then less to stop, then an empty node, then less load.
pub cost_less : String → PlacementOption → PlacementOption → Bool
cost_less name a b =
    let (a_by, a_all) = container_count_by_component a in
    let (b_by, b_all) = container_count_by_component b in
    let (a_up, a_down) = scale_up_down_counts a in
    let (b_up, b_down) = scale_up_down_counts b in
    if not (count_in name a_by ==ℤ count_in name b_by)
    then ltb_ℤ (count_in name a_by) (count_in name b_by)
    else if not (a_down == b_down)
    then ltb a_down b_down
    else if leb_ℤ a_all (pos 1) && ltb_ℤ (pos 1) b_all
    then true
    else if leb_ℤ b_all (pos 1) && ltb_ℤ (pos 1) a_all
    then false
    else ltb_ℤ a.target_node.load_avg_1m b.target_node.load_avg_1m

-- The running containers of other components that are not yet to stop.
pub displaceable : String → Keyed ℤ → List ComponentInfo → List ComponentInfo
displaceable name counts [] = []
displaceable name counts (ci ∷ infos) =
    let n = count_in ci.component_name counts in
    let taken = ltb_ℤ (pos 0) n && not (ci.component_name =s= name) in
    let rest =
      displaceable name (if taken then insert ci.component_name (n -ℤ pos 1) counts else counts)
        infos in
    if taken then ci ∷ rest else rest

-- Stop them in order until there is memory: what is available then, and the option.
pub displace : ℤ → List ComponentInfo → ℤ → PlacementOption → ℤ × PlacementOption
displace required [] available p = (available, p)
displace required (ci ∷ infos) available p =
    let rest =
      displace required infos (available +ℤ ci.memory_reserved_mib)
        (clone_with_target_delta ci.component_name (pos 0 -ℤ pos 1) ci.memory_reserved_mib p) in
    if ltb_ℤ available required then rest else (available, p)

pub with_memory : String → ℤ → ℤ × PlacementOption → Option PlacementOption
with_memory name required (available, p) =
    if leb_ℤ required available
    then some (clone_with_target_delta name (pos 1) required p)
    else none

-- The body of the loop over the nodes.
pub start_option : String → ℤ → ℤ → Bool → PlacementOption → Option PlacementOption
unfolding with_memory displace displaceable sort
start_option name required max_per_node displace_ok p =
    let available = p.target_node.total_memory_mib -ℤ ram_used p in
    let counts = (container_count_by_component p).0 in
    let under_limit = leb_ℤ max_per_node (pos 0) || ltb_ℤ (count_in name counts) max_per_node in
    if under_limit && leb_ℤ required p.target_node.total_memory_mib
    then with_memory name required (
        if ltb_ℤ available required && displace_ok
        then displace required
            (sort (component_info_less [])
              (displaceable name counts p.target_node.running_components))
            available p
        else (available, p))
    else none

-- The options of the nodes that have one.
pub options_of :
    (PlacementOption → Option PlacementOption) → Keyed PlacementOption → List PlacementOption
options_of option [] = []
options_of option ((k, p) ∷ nodes) =
    let rest = options_of option nodes in elim (option p) [ none ↦ rest | some q ↦ q ∷ rest ]

pub with_sorted_targets : PlacementOption → PlacementOption
with_sorted_targets p = record p {
  input = record p.input { target_counts = sort component_target_less p.input.target_counts };
}

pub first : List PlacementOption → Option PlacementOption
first [] = none
first (p ∷ ps) = some p

pub last : List PlacementOption → Option PlacementOption
last [] = none
last (p ∷ []) = some p
last (p ∷ (q ∷ ps)) = last (q ∷ ps)

pub best_start_component_option :
    Keyed PlacementOption → String → ℤ → ℤ → Bool → Option PlacementOption
unfolding options_of start_option with_sorted_targets first sort cost_less
best_start_component_option nodes name required max_per_node displace_ok =
    elim (first (
      sort (cost_less name)
        (options_of (start_option name required max_per_node displace_ok) nodes))) [
          | none ↦ none
          | some p ↦ some (with_sorted_targets p)
        ]

pub stop_option : String → PlacementOption → Option PlacementOption
stop_option name p =
    if ltb_ℤ (pos 0) (count_in name (container_count_by_component p).0)
    then some (clone_with_target_delta name (pos 0 -ℤ pos 1) (ram_for_component name p) p)
    else none

pub best_stop_component_option : Keyed PlacementOption → String → Option PlacementOption
unfolding options_of stop_option last sort cost_less
best_stop_component_option nodes name =
    last (sort (cost_less name) (options_of (stop_option name) nodes))
