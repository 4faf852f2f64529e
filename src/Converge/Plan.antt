-- ===== src/Converge/Plan.antt =====
-- `plan` of pkg/converge/converger.go: which containers to stop, how many to start, and in which
-- order.
pub mod Weave
pub mod Outcome
mod Examples
use mathlib.Core.Option
use maelstrom.Prelude.{
  ℕ, zero, suc, ◌+◌, ◌*◌, ◌≡◌, String, Bool, true, false, ◌&&◌, ◌||◌, not, Option, none, some, List,
  [], ◌∷◌, length, ltb, ◌=s=◌, if◌then◌else◌,
}
use maelstrom.Prelude.Int.{ℤ, pos, pos_part, ◌-ℤ◌, leb_ℤ, ◌==ℤ◌}
use maelstrom.V1.{
  Component, start_parallelism_parallel, start_parallelism_seriesfirst, restart_order_startstop,
  restart_order_stopstart,
}
use maelstrom.Converge.{
  Container, ComponentTarget, StopStep, ConvergeStep, start, stop, ConvergePlan, reason_scale_down,
  reason_version_changed,
}

unfoldable pub get_start_parallelism : Component → String
get_start_parallelism c =
    if not (c.start_parallelism =s= "") then c.start_parallelism else start_parallelism_parallel

unfoldable pub get_restart_order : Component → String
get_restart_order c =
    if not (c.restart_order =s= "") then c.restart_order else restart_order_stopstart

-- Why the loop stops a container when `active` containers before it are kept; `none` keeps it.
unfoldable pub stop_reason : ComponentTarget → ℕ → Container → Option String
stop_reason target active cn =
    if leb_ℤ target.count (pos active)
    then some reason_scale_down
    else if not (cn.terminate_reason =s= "")
    then some cn.terminate_reason
    else if cn.component.name =s= target.component.name
        && cn.component.version ==ℤ target.component.version
    then none
    else some reason_version_changed

abbrev pub count_kept : Option String → ℕ → ℕ
count_kept none active = suc active
count_kept (some reason) active = active

abbrev pub add_stop : Option String → Container → List StopStep → List StopStep
add_stop none cn stops = stops
add_stop (some reason) cn stops = record { container_id = cn.id; reason = reason } ∷ stops

-- The loop over the containers: what is to stop, and the final `activeCount`.
unfoldable pub scan : ComponentTarget → ℕ → List Container → List StopStep × ℕ
scan target active [] = ([], active)
scan target active (cn ∷ cns) =
    let reason = stop_reason target active cn in
    let (stops, kept) = scan target (count_kept reason active) cns in
    (add_stop reason cn stops, kept)

-- "if parallelism is seriesfirst we don't have to lock after the first start event"
pub lock_after : Component → Bool → Bool
unfolding get_start_parallelism
lock_after c lock =
    if get_start_parallelism c =s= start_parallelism_seriesfirst then false else lock

-- The loop over `toStart` and `toStop`; `none` means that the fuel ran out.
pub alternate : ℕ → Component → Bool → Bool → ℕ → List StopStep → Option (List ConvergeStep)
alternate zero c add_start lock to_start to_stop = none
alternate (suc fuel) c add_start lock zero [] = some []
alternate (suc fuel) c true lock zero (s ∷ to_stop) = alternate fuel c false lock zero (s ∷ to_stop)
alternate (suc fuel) c true lock (suc n) to_stop =
    Option.map (λ steps. start (record { component = c; lock = lock }) ∷ steps)
      (alternate fuel c false (lock_after c lock) n to_stop)
alternate (suc fuel) c false lock to_start [] = alternate fuel c true lock to_start []
alternate (suc fuel) c false lock to_start (s ∷ to_stop) =
    Option.map (λ steps. stop s ∷ steps) (alternate fuel c true lock to_start to_stop)

-- Every second round of the loop makes a step, so this many rounds are enough.
abbrev pub rounds : ℕ → ℕ → ℕ
rounds to_start to_stop = 2 * (to_start + to_stop) + 2

-- `toStart` may be negative, and then counts as 0 wherever it is read.
unfoldable pub plan : List Container → ComponentTarget → Option ConvergePlan
plan containers target =
    let (to_stop, active_count) = scan target 0 containers in
    let to_start = pos_part (target.count -ℤ pos active_count) in
    let para = get_start_parallelism target.component in
    let restart_order = get_restart_order target.component in
    Option.map (λ steps. record { pull = ltb 0 to_start; steps = steps })
      (alternate (rounds to_start (length to_stop)) target.component
        (restart_order =s= restart_order_startstop) (not (para =s= start_parallelism_parallel))
        to_start to_stop)
