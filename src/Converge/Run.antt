-- ===== src/Converge/Run.antt =====
-- How a converger applies its plan, pkg/converge/converger.go: `converge`, the steps, and the events
-- that change its containers. The lock is held by one of these at a time.
pub mod Containers
pub mod Success
pub mod Target
pub mod Failure
mod Examples
use Prim.Native.String.{◌++◌ as append}
use text.Mathlib.Text
use maelstrom.Prelude.{
  ℕ, zero, suc, ◌+◌, ◌≡◌, String, Bool, true, false, ◌&&◌, ◌||◌, not, Option, none, some, List, [],
  ◌∷◌, ◌++◌, map, ◌==◌, ◌=s=◌, if◌then◌else◌,
}
use maelstrom.V1.{Component, component_status_stopping, component_status_active}
use maelstrom.Converge.{
  Container, ComponentTarget, StartStep, StopStep, ConvergeStep, start, stop, ConvergePlan,
  reason_image_updated,
}
use maelstrom.Converge.Plan.{plan}

-- What the converger has its side effect functions do, in order.
pub data Effect : Type 0 where
  pulled : Component → Effect
  locked : Component → Bool → Effect
  created : ℕ → Effect
  stopped : ℕ → String → Effect
  post_start : Component → Bool → Bool → Effect
  notified : Effect

pub data Error : Type 0 where
  context_canceled lock_failed start_failed pull_failed plan_unfinished : Error

pub data LockResult : Type 0 where
  release : Bool → LockResult
  lock_canceled lock_error : LockResult

-- The side effect functions and the container's own start are not the converger's. Each may answer
-- as it likes at each call: the number is that of the call. `start_and_health_check` gives the
-- Docker id that the container gets, and whether it became healthy.
pub record Hooks : Type 0 where
  pub pull_image : ℕ → Component → Bool
  pub start_lock_acquire : ℕ → Component → LockResult
  pub create_container : ℕ → Component → Container
  pub start_and_health_check : ℕ → Container → String × Bool

pub record Converger : Type 0 where
  pub current_target : ComponentTarget
  pub containers : List Container
  pub calls : ℕ
  pub effects : List Effect

abbrev pub effect : Effect → Converger → Converger
effect e c = record c { effects = e ∷ c.effects }

abbrev pub called : Converger → Converger
called c = record c { calls = suc c.calls }

add_container : Container → Converger → Converger
add_container cn c = record c { containers = c.containers ++ cn ∷ [] }

-- The test of `removeContainer`.
same_container : Container → Container → Bool
same_container cn other =
    (not (cn.id == 0) && other.id == cn.id)
    || (not (cn.container_id =s= "") && other.container_id =s= cn.container_id)

remove_container : Container → List Container → List Container
unfolding same_container
remove_container cn [] = []
remove_container cn (other ∷ cns) =
    if same_container cn other then cns else other ∷ remove_container cn cns

-- A container is a shared object: what is written to it shows in the list.
pub put_container : Container → List Container → List Container
put_container cn = map (λ other. if other.id == cn.id then cn else other)

-- The loop of `stopAndRemoveContainer`: the containers that it stops are marked, and the last of
-- them is `found`.
abbrev hit : ℕ → String → Container → Bool
hit id docker_id cn = id == cn.id || docker_id =s= cn.container_id

abbrev stopping : Container → Container
stopping cn = record cn { status = component_status_stopping }

mark_stopping : ℕ → String → List Container → List Container
mark_stopping id docker_id [] = []
mark_stopping id docker_id (cn ∷ cns) =
    (if hit id docker_id cn then stopping cn else cn) ∷ mark_stopping id docker_id cns

find_last : ℕ → String → Option Container → List Container → Option Container
find_last id docker_id found [] = found
find_last id docker_id found (cn ∷ cns) =
    find_last id docker_id (if hit id docker_id cn then some cn else found) cns

stop_effects : ℕ → String → String → List Effect → List Container → List Effect
stop_effects id docker_id reason effects [] = effects
stop_effects id docker_id reason effects (cn ∷ cns) =
    stop_effects id docker_id reason
      (if hit id docker_id cn then stopped cn.id reason ∷ notified ∷ effects else effects) cns

drop_found : Container → List Container → List Container
drop_found found [] = []
drop_found found (cn ∷ cns) =
    let rest = drop_found found cns in
    if not (found.id == cn.id) || not (found.container_id =s= cn.container_id)
    then cn ∷ rest
    else rest

after_found : Option Container → List Container → Converger → Converger
unfolding drop_found
after_found none marked c = record c { containers = marked }
after_found (some found) marked c =
    effect notified (record c { containers = drop_found found marked })

pub stop_and_remove_container : ℕ → String → String → Converger → Converger
unfolding mark_stopping find_last stop_effects after_found
stop_and_remove_container id docker_id reason c =
    after_found (find_last id docker_id none c.containers) (mark_stopping id docker_id c.containers)
      (record c { effects = stop_effects id docker_id reason c.effects c.containers })

abbrev mark : String → Container → Container
mark reason cn = record cn { terminate_reason = reason }

pub mark_containers_for_termination : String → Converger → Converger
mark_containers_for_termination reason c = record c { containers = map (mark reason) c.containers }

-- `NormalizeImageName` of pkg/common/docker.go.
pub normalize_image_name : String → String
normalize_image_name name = elim (Text.find? name ":") [
  | none ↦ append name ":latest"
  | some pos ↦ name
]

pub data DockerEvent : Type 0 where
  container_exited : String → DockerEvent
  image_updated : String → DockerEvent

-- The new state, and whether the background goroutine is alerted.
pub on_docker_event : DockerEvent → Converger → Converger × Bool
unfolding stop_and_remove_container mark_containers_for_termination normalize_image_name
on_docker_event (container_exited docker_id) c =
    if not (docker_id =s= "")
    then (stop_and_remove_container 0 docker_id "container exited" c, true)
    else (c, false)
on_docker_event (image_updated image) c =
    if normalize_image_name c.current_target.component.docker.image =s= normalize_image_name image
    then (mark_containers_for_termination reason_image_updated c, true)
    else (c, false)

pub stop_step : StopStep → Converger → Converger × Option Error
unfolding stop_and_remove_container
stop_step step c = (stop_and_remove_container step.container_id "unused" step.reason c, none)

-- `start` after the lock: `release_lock` is what the lock function answered.
after_check : StartStep → Bool → Container → Converger → String × Bool → Converger × Option Error
unfolding put_container remove_container
after_check step release_lock cn c (docker_id, false) =
    let failed = record cn { container_id = docker_id } in
    (
      effect notified
          (record c { containers = remove_container failed (put_container failed c.containers) }),
      some start_failed,
    )
after_check step release_lock cn c (docker_id, true) =
    let active = record cn { container_id = docker_id; status = component_status_active } in
    (
      effect (post_start step.component release_lock true)
          (effect notified (record c { containers = put_container active c.containers })),
      none,
    )

start_locked : Hooks → StartStep → Bool → Converger → Converger × Option Error
unfolding add_container after_check
start_locked hooks step release_lock c =
    let cn = hooks.create_container c.calls step.component in
    let added = effect notified (add_container cn (effect (created cn.id) (called c))) in
    after_check step release_lock cn (called added) (hooks.start_and_health_check added.calls cn)

after_lock : Hooks → StartStep → Converger → LockResult → Converger × Option Error
unfolding start_locked
after_lock hooks step c (release b) = start_locked hooks step b (effect (locked step.component b) c)
after_lock hooks step c lock_canceled = (c, some context_canceled)
after_lock hooks step c lock_error = (c, some lock_failed)

pub start_step : Hooks → StartStep → Converger → Converger × Option Error
unfolding after_lock
start_step hooks step c =
    if step.lock
    then after_lock hooks step (called c) (hooks.start_lock_acquire c.calls step.component)
    else start_locked hooks step false c

pub apply_step : Hooks → ConvergeStep → Converger → Converger × Option Error
unfolding start_step stop_step
apply_step hooks (start s) c = start_step hooks s c
apply_step hooks (stop s) c = stop_step s c

-- The first error ends the loop.
pub apply_steps : Hooks → List ConvergeStep → Converger → Converger × Option Error
apply_steps hooks [] c = (c, none)
apply_steps hooks (step ∷ steps) c =
    let (next, err) = apply_step hooks step c in
    elim err [ none ↦ apply_steps hooks steps next | some e ↦ (next, some e) ]

after_pull : Hooks → ConvergePlan → Component → Converger → Bool → Converger × Option Error
after_pull hooks p comp c true = apply_steps hooks p.steps (effect (pulled comp) c)
after_pull hooks p comp c false = (c, some pull_failed)

apply_plan : Hooks → Component → Option ConvergePlan → Converger → Converger × Option Error
unfolding after_pull
apply_plan hooks comp none c = (c, some plan_unfinished)
apply_plan hooks comp (some p) c =
    if p.pull
    then after_pull hooks p comp (called c) (hooks.pull_image c.calls comp)
    else apply_steps hooks p.steps c

pub converge : Hooks → Converger → Converger × Option Error
unfolding apply_plan
converge hooks c =
    apply_plan hooks c.current_target.component (plan c.containers c.current_target) c
