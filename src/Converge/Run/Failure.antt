-- ===== src/Converge/Run/Failure.antt =====
-- A start step whose container does not come up, pkg/converge/converger.go.
use maelstrom.Prelude.{
  suc, ◌≡◌, ◌≢◌, refl, ap, ◌∙◌, String, Bool, true, false, some, List, [], ◌∷◌, ◌++◌, All, arith,
  name_iff,
}
use maelstrom.Converge.{Container, StartStep}
use maelstrom.Converge.Run.{
  Converger, Hooks, start_failed, release, locked, created, notified, start_step, start_locked,
  after_lock, after_check, add_container, remove_container, same_container, put_container, called,
  effect,
}
use maelstrom.Converge.Run.Containers.{AvoidsId, put_container_last}

-- The container shares neither its id nor a Docker id with the list.
abbrev pub IsApart : Container → List Container → Type 0
IsApart cn =
    All (λ other.
      (other.id ≢ cn.id) × ((cn.container_id ≢ "") → other.container_id ≢ cn.container_id))

remove_container_last :
    (cn : Container) (cns : List Container)
    → (cn.id ≢ 0)
    → IsApart cn cns
    → remove_container cn (cns ++ cn ∷ []) ≡ cns
unfolding remove_container same_container
remove_container_last cn [] h a = ground arith
remove_container_last cn (other ∷ cns) h a = ground (
  arith,
  name_iff cn.container_id "",
  name_iff other.container_id cn.container_id,
  remove_container_last cn cns,
)

IsApart-AvoidsId : (cn : Container) (cns : List Container) → IsApart cn cns → AvoidsId cn.id cns
IsApart-AvoidsId cn [] a = tt
IsApart-AvoidsId cn (other ∷ cns) a = (a.0.0, IsApart-AvoidsId cn cns a.1)

after_check-false :
    (step : StartStep) (b : Bool) (cn : Container) (c : Converger) (h : String × Bool)
    → h.1 ≡ false
    → let failed = record cn { container_id = h.0 } in
      after_check step b cn c h ≡ (
        effect notified
            (record c { containers = remove_container failed (put_container failed c.containers) }),
        some start_failed,
      )
unfolding after_check
after_check-false step b cn c (docker_id, true) e = cc
after_check-false step b cn c (docker_id, false) e = refl

-- The container that a locked start creates, and what becomes of its start.
abbrev pub new_container : Hooks → StartStep → Converger → Container
new_container hooks step c = hooks.create_container (suc c.calls) step.component

abbrev pub check_result : Hooks → StartStep → Converger → String × Bool
check_result hooks step c =
    hooks.start_and_health_check (suc (suc c.calls)) (new_container hooks step c)

abbrev pub checked : Hooks → StartStep → Converger → Container
checked hooks step c = record (new_container hooks step c) {
  container_id = (check_result hooks step c).0;
}

-- When the container of a locked start does not become healthy, the step ends with an error and the
-- list is as it was. The side effects are the lock, the new container and two notifications; the
-- function that would release the lock is not called, whatever the lock function answered.
pub start_step_failure :
    (hooks : Hooks) (step : StartStep) (c : Converger) (b : Bool)
    → step.lock ≡ true
    → hooks.start_lock_acquire c.calls step.component ≡ release b
    → (check_result hooks step c).1 ≡ false
    → (new_container hooks step c).id ≢ 0
    → IsApart (checked hooks step c) c.containers
    → let (d, err) = start_step hooks step c in
      (err ≡ some start_failed)
      × (d.containers ≡ c.containers)
      × (d.effects
          ≡ notified
            ∷ notified
            ∷ created (new_container hooks step c).id
            ∷ locked step.component b
            ∷ c.effects)
unfolding start_step after_lock start_locked add_container
start_step_failure hooks step c b wants got sick nonzero apart =
    let cn = new_container hooks step c in
    let failed = checked hooks step c in
    let locked_c = effect (locked step.component b) (called c) in
    let added =
      called (effect notified (add_container cn (effect (created cn.id) (called locked_c)))) in
    rw (wants, got, after_lock, after_check-false step b cn added (check_result hooks step c) sick)
      (
        refl,
        ap (remove_container failed) (
              put_container_last failed c.containers cn refl
                (IsApart-AvoidsId failed c.containers apart))
            ∙ remove_container_last failed c.containers nonzero apart,
        refl,
      )
