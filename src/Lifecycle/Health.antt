-- ===== src/Lifecycle/Health.antt =====
-- The health checks of a container, pkg/converge/container.go.
use native.Mathlib.Nat
use maelstrom.Prelude.{
  ℕ, suc, ◌%◌, ◌≤◌, ◌<◌, ◌≡◌, refl, sym, ap, ◌∙◌, true, false, List, [], ◌∷◌, ◌==◌, if◌then◌else◌,
  if-cases, arith,
}
use maelstrom.Prelude.Int.{ℤ, pos_part, leb_ℤ, pos}
use maelstrom.V1.{Component}
use maelstrom.Lifecycle.{
  RunLoop, Event, request_done, activity_tick, health_check_tick, context_done, new_container,
  new_run_loop, bump_req_stats, append_activity, run_health_check, handle, run,
}
use maelstrom.Lifecycle.Activity.{still_runs}

-- How many checks in a row have failed by now.
abbrev pub streak : List Event → ℕ
streak [] = 0
streak (health_check_tick true ∷ h) = if still_runs h then 0 else streak h
streak (health_check_tick false ∷ h) = if still_runs h then suc (streak h) else streak h
streak (request_done now d ∷ h) = streak h
streak (activity_tick now ∷ h) = streak h
streak (context_done ∷ h) = streak h

-- How often a row of failures reached a multiple of `m`.
abbrev pub rows_full : ℕ → List Event → ℕ
rows_full m [] = 0
rows_full m (health_check_tick false ∷ h) =
    if still_runs h
    then if suc (streak h) % m == 0 then suc (rows_full m h) else rows_full m h
    else rows_full m h
rows_full m (health_check_tick true ∷ h) = rows_full m h
rows_full m (request_done now d ∷ h) = rows_full m h
rows_full m (activity_tick now ∷ h) = rows_full m h
rows_full m (context_done ∷ h) = rows_full m h

-- The failures that a component allows, at least one.
abbrev pub max_failures : Component → ℕ
max_failures c =
    if leb_ℤ c.docker.http_health_check_max_failures (pos 0)
    then 1
    else pos_part c.docker.http_health_check_max_failures

abbrev pub Checked : ℕ → List Event → RunLoop → Type 0
Checked m h l =
    (l.running ≡ still_runs h)
    × (l.container.health_check_max_failures ≡ m)
    × (l.container.health_check_failures ≡ streak h % m)
    × (l.container.stops ≡ rows_full m h)

module _ (m : ℕ) (positive : 1 ≤ m) where
  row_goes_on : (n : ℕ) → suc (n % m) < m → suc n % m ≡ suc (n % m)
  row_goes_on n h = Nat.suc-mod n m ∙ Nat.mod-eq_of_lt h

  row_is_full : (n : ℕ) → m ≤ suc (n % m) → suc n % m ≡ 0
  row_is_full n h =
      let same : suc (n % m) ≡ m = omega (arith, h, Nat.mod-lt n {m = m} positive) in
      Nat.suc-mod n m ∙ ap (λ k. k % m) same ∙ Nat.mod_self m

  handle-Checked :
      (e : Event) (h : List Event) (l : RunLoop)
      → l.running ≡ true
      → Checked m h l
      → Checked m (e ∷ h) (handle e l)
  unfolding handle bump_req_stats append_activity run_health_check
  handle-Checked (request_done now d) h l on (r, x, f, s) = ground (arith, r, x, f, s)
  handle-Checked (activity_tick now) h l on (r, x, f, s) = (r, x, f, s)
  handle-Checked (health_check_tick true) h l on (r, x, f, s) =
      let up : still_runs h ≡ true = sym r ∙ on in (r, x, rw up (sym (Nat.zero-mod m)), s)
  handle-Checked (health_check_tick false) h l on (r, x, f, s) =
      let up : still_runs h ≡ true = sym r ∙ on in
      rw up (ground (arith, r, x, f, s, row_goes_on (streak h), row_is_full (streak h)))
  handle-Checked context_done h l on (r, x, f, s) = (refl, x, f, s)

  stopped-Checked :
      (e : Event) (h : List Event) (l : RunLoop)
      → l.running ≡ false
      → Checked m h l
      → Checked m (e ∷ h) l
  stopped-Checked (request_done now d) h l off k = k
  stopped-Checked (activity_tick now) h l off k = k
  stopped-Checked (health_check_tick true) h l off (r, x, f, s) =
      let down : still_runs h ≡ false = sym r ∙ off in (r, x, rw down f, s)
  stopped-Checked (health_check_tick false) h l off (r, x, f, s) =
      let down : still_runs h ≡ false = sym r ∙ off in (r, x, rw down f, rw down s)
  stopped-Checked context_done h l off (r, x, f, s) = (off, x, f, s)

positive_max : (c : Component) → 1 ≤ max_failures c
positive_max c = ground arith

-- The container is stopped whenever the row of failed checks reaches a multiple of the failures allowed,
-- and only then; in between the counter is the length of the row since the last stop.
pub run-Checked :
    (now : ℤ) (id : ℕ) (c : Component) (h : List Event)
    → Checked (max_failures c) h (run h (new_run_loop now (new_container id c)))
unfolding run new_run_loop new_container
run-Checked now id c [] = (refl, refl, sym (Nat.zero-mod (max_failures c)), refl)
run-Checked now id c (e ∷ h) =
    let l = run h (new_run_loop now (new_container id c)) in
    let before = run-Checked now id c h in
    let m = max_failures c in
    if-cases (Checked m (e ∷ h)) l.running (λ on. handle-Checked m (positive_max c) e h l on before)
      (λ off. stopped-Checked m (positive_max c) e h l off before)
