-- ===== src/Registry.antt =====
-- The convergers of a node, pkg/converge/registry.go: one for each component, under the version that a
-- caller of SetTargets must know. The lock makes each operation one step.
pub mod Versions
pub mod Targets
mod Examples
use maelstrom.Prelude.{
  ℕ, suc, ◌≡◌, String, Bool, true, false, Option, none, some, List, [], ◌∷◌, ◌++◌, map, Keyed,
  lookup, insert, delete, if◌then◌else◌,
}
use maelstrom.Prelude.Int.{ℤ, pos, ◌+ℤ◌, ◌==ℤ◌}
use maelstrom.V1.{Component, ComponentInfo}
use maelstrom.Converge.{ComponentTarget, Container}
use maelstrom.Converge.Run.{Converger}
use maelstrom.MaelService.{Change, component_put, component_removed}

-- `woken` are the components whose converger was sent to its run loop, `stopped` those whose converger
-- was told to stop.
pub record Registry : Type 0 where
  pub version : ℤ
  pub by_comp_name : Keyed Converger
  pub container_counter_id : ℕ
  pub woken : List String
  pub stopped : List String

unfoldable pub new_registry : ℤ → Registry
new_registry now = record {
  version = now;
  by_comp_name = [];
  container_counter_id = 0;
  woken = [];
  stopped = [];
}

pub new_converger : ComponentTarget → Converger
new_converger target = record { current_target = target; containers = []; calls = 0; effects = [] }

-- `ByComponent`: the registry in which the component has a converger, and that converger.
pub by_component : Component → Registry → Registry × Converger
unfolding new_converger
by_component c r = elim (lookup c.name r.by_comp_name) [
  | some converger ↦ (r, converger)
  | none ↦
      let converger = new_converger (record { component = c; count = pos 0 }) in
      (record r { by_comp_name = insert c.name converger r.by_comp_name }, converger)
]

-- `SetTarget` of the converger under a name.
set_target : String → ComponentTarget → Converger → Registry → Registry
set_target name target converger r = record r {
  by_comp_name = insert name (record converger { current_target = target }) r.by_comp_name;
  woken = name ∷ r.woken;
}

pub set_one_target : ComponentTarget → Registry → Registry
unfolding by_component set_target
set_one_target t r =
    let (after, converger) = by_component t.component r in
    set_target t.component.name t converger after

pub set_each_target : List ComponentTarget → Registry → Registry
unfolding set_one_target
set_each_target [] r = r
set_each_target (t ∷ ts) r = set_each_target ts (set_one_target t r)

-- Each target has a goroutine, which hands it to its component's converger. They run here one after the other, in the
-- order of the list; two targets of one component the code may hand over in either order. Whether the caller waits
-- for the convergers, block, changes nothing here.
unfoldable pub set_targets : ℤ → List ComponentTarget → Registry → Registry × Bool
unfolding set_each_target
set_targets version targets r =
    if version ==ℤ r.version
    then (set_each_target targets (record r { version = r.version +ℤ pos 1 }), true)
    else (r, false)

-- `SetComponent` keeps the count.
pub on_component_notification : Change → Registry → Registry
unfolding set_target
on_component_notification (component_removed name found) r = elim (lookup name r.by_comp_name) [
  | none ↦ r
  | some converger ↦ record r {
    by_comp_name = delete name r.by_comp_name;
    stopped = name ∷ r.stopped;
  }
]
on_component_notification (component_put c) r = elim (lookup c.name r.by_comp_name) [
  | none ↦ r
  | some converger ↦
      set_target c.name (record converger.current_target { component = c }) converger r
]

-- `info` is `ComponentInfo` of a container.
component_infos : (Container → ComponentInfo) → Keyed Converger → List ComponentInfo
component_infos info [] = []
component_infos info ((name, c) ∷ cs) =
    let rest = component_infos info cs in map info c.containers ++ rest

pub get_state : (Container → ComponentInfo) → Registry → ℤ × List ComponentInfo
unfolding component_infos
get_state info r = (r.version, component_infos info r.by_comp_name)

pub incr_container_id_counter : Registry → Registry × ℕ
incr_container_id_counter r =
    (record r { container_counter_id = suc r.container_counter_id }, suc r.container_counter_id)

-- Before the node is told.
pub on_containers_changed : Registry → Registry
unfolding incr_container_id_counter
on_containers_changed r = (incr_container_id_counter r).0

names_of : Keyed Converger → List String
names_of [] = []
names_of ((name, c) ∷ cs) = name ∷ names_of cs

pub shutdown : Registry → Registry
unfolding names_of
shutdown r = record r { by_comp_name = []; stopped = names_of r.by_comp_name ++ r.stopped }
