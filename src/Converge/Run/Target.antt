-- ===== src/Converge/Run/Target.antt =====
-- `converge` of pkg/converge/converger.go reaches the target when nothing fails.
use maelstrom.Prelude.{
  ℕ, zero, suc, ◌+◌, ◌<◌, ◌≤◌, ◌≡◌, ◌≢◌, refl, sym, ap, ◌∙◌, Bool, true, false, not, none, some,
  List, [], ◌∷◌, ◌++◌, All, arith, ◌==◌, ◌=s=◌, Bool-cases, Option-cases, inl, inr, ltb, length,
  length-append,
}
use maelstrom.Prelude.Int.{pos, pos_part, ◌-ℤ◌, pos_part-sub}
use maelstrom.V1.{Component, start_parallelism_parallel, restart_order_startstop}
use maelstrom.Converge.{
  Container, ComponentTarget, ConvergePlan, StopStep, ConvergeStep, start, stop,
}
use maelstrom.Converge.Plan.{
  scan, stop_reason, lock_after, get_start_parallelism, get_restart_order,
}
use maelstrom.Converge.Plan.Weave.{shuffle, start_steps, stop_steps, in_turn, plan-in_turn}
use maelstrom.Converge.Plan.Outcome.{Matches, keep, keep-Matches, scan_count, scan_count_le}
use maelstrom.Converge.Run.{
  Converger, Hooks, converge, apply_steps, apply_plan, after_pull, effect, called, pulled,
}
use maelstrom.Converge.Run.Containers.{DistinctIds, AvoidsId, without, without_head}
use maelstrom.Converge.Run.Success.{
  Succeeds, Ready, Ready-later, IsNew, StartsOf, StopsOld, stop_ids, count_starts, without_all,
  apply_steps_list,
}

-- Starts and stops in turn stop what the stops say and start what the starts say.
StartsOf-shuffle :
    (c : Component) (xs ys : List ConvergeStep)
    → StartsOf c xs
    → StartsOf c ys
    → StartsOf c (shuffle xs ys)
unfolding shuffle
StartsOf-shuffle c [] ys hx hy = hy
StartsOf-shuffle c (x ∷ xs) [] hx hy = hx
StartsOf-shuffle c (start s ∷ xs) (start t ∷ ys) hx hy =
    (hx.0, (hy.0, StartsOf-shuffle c xs ys hx.1 hy.1))
StartsOf-shuffle c (start s ∷ xs) (stop t ∷ ys) hx hy = (hx.0, StartsOf-shuffle c xs ys hx.1 hy)
StartsOf-shuffle c (stop s ∷ xs) (start t ∷ ys) hx hy = (hy.0, StartsOf-shuffle c xs ys hx hy.1)
StartsOf-shuffle c (stop s ∷ xs) (stop t ∷ ys) hx hy = StartsOf-shuffle c xs ys hx hy

count_starts-shuffle :
    (xs ys : List ConvergeStep) → count_starts (shuffle xs ys) ≡ count_starts xs + count_starts ys
unfolding shuffle
count_starts-shuffle [] ys = omega arith
count_starts-shuffle (x ∷ xs) [] = omega arith
count_starts-shuffle (start s ∷ xs) (start t ∷ ys) = omega (arith, count_starts-shuffle xs ys)
count_starts-shuffle (start s ∷ xs) (stop t ∷ ys) = omega (arith, count_starts-shuffle xs ys)
count_starts-shuffle (stop s ∷ xs) (start t ∷ ys) = omega (arith, count_starts-shuffle xs ys)
count_starts-shuffle (stop s ∷ xs) (stop t ∷ ys) = count_starts-shuffle xs ys

-- The ids of a list of stops.
abbrev ids_of : List StopStep → List ℕ
ids_of [] = []
ids_of (s ∷ stops) = s.container_id ∷ ids_of stops

module _ (c : Component) where
  start_steps_facts :
      (lock : Bool) (n : ℕ)
      → (stop_ids (start_steps c lock n) ≡ [])
        × StartsOf c (start_steps c lock n)
        × (count_starts (start_steps c lock n) ≡ n)
  unfolding start_steps
  start_steps_facts lock zero = (refl, tt, refl)
  start_steps_facts lock (suc n) =
      let (ids, of, count) = start_steps_facts (lock_after c lock) n in
      (ids, (refl, of), ap suc count)

  stop_steps_facts :
      (stops : List StopStep)
      → (stop_ids (stop_steps stops) ≡ ids_of stops)
        × StartsOf c (stop_steps stops)
        × (count_starts (stop_steps stops) ≡ 0)
  stop_steps_facts [] = (refl, tt, refl)
  stop_steps_facts (s ∷ stops) =
      let (ids, of, count) = stop_steps_facts stops in (ap (λ l. s.container_id ∷ l) ids, of, count)

  stop_ids-shuffle :
      (lock : Bool) (n : ℕ) (stops : List StopStep)
      → (stop_ids (shuffle (start_steps c lock n) (stop_steps stops)) ≡ ids_of stops)
        × (stop_ids (shuffle (stop_steps stops) (start_steps c lock n)) ≡ ids_of stops)
  unfolding shuffle start_steps
  stop_ids-shuffle lock zero [] = (refl, refl)
  stop_ids-shuffle lock zero (s ∷ stops) = let e = (stop_steps_facts (s ∷ stops)).0 in (e, e)
  stop_ids-shuffle lock (suc n) [] = let e = (start_steps_facts lock (suc n)).0 in (e, e)
  stop_ids-shuffle lock (suc n) (s ∷ stops) =
      let (e, f) = stop_ids-shuffle (lock_after c lock) n stops in
      (ap (λ l. s.container_id ∷ l) e, ap (λ l. s.container_id ∷ l) f)

  -- What the steps of a plan ask for, in either order.
  in_turn_facts :
      (first lock : Bool) (n : ℕ) (stops : List StopStep)
      → let steps = in_turn first (start_steps c lock n) (stop_steps stops) in
        (stop_ids steps ≡ ids_of stops) × StartsOf c steps × (count_starts steps ≡ n)
  in_turn_facts true lock n stops =
      let (ids, of, count) = start_steps_facts lock n in
      let (ids', of', count') = stop_steps_facts stops in
      (
        (stop_ids-shuffle lock n stops).0,
        StartsOf-shuffle c (start_steps c lock n) (stop_steps stops) of of',
        omega (arith, count_starts-shuffle (start_steps c lock n) (stop_steps stops)),
      )
  in_turn_facts false lock n stops =
      let (ids, of, count) = start_steps_facts lock n in
      let (ids', of', count') = stop_steps_facts stops in
      (
        (stop_ids-shuffle lock n stops).1,
        StartsOf-shuffle c (stop_steps stops) (start_steps c lock n) of' of,
        omega (arith, count_starts-shuffle (stop_steps stops) (start_steps c lock n)),
      )

-- What is left of the list when the scan's stops are taken out is what the scan keeps.
AvoidsId-sym :
    (cn : Container) (cns : List Container)
    → All (λ other. other.id ≢ cn.id) cns
    → AvoidsId cn.id cns
AvoidsId-sym cn cns h = h

scan-AvoidsId :
    (target : ComponentTarget) (active id : ℕ) (cns : List Container)
    → AvoidsId id cns
    → All (λ i. i ≢ id) (ids_of (scan target active cns).0)
unfolding scan
scan-AvoidsId target active id [] h = tt
scan-AvoidsId target active id (cn ∷ cns) h = elim (Option-cases (stop_reason target active cn)) [
  | inl e ↦ rw e (scan-AvoidsId target (suc active) id cns h.1)
  | inr (reason, e) ↦ rw e (h.0, scan-AvoidsId target active id cns h.1)
]

without_all-cons :
    (ids : List ℕ) (cn : Container) (cns : List Container)
    → All (λ i. i ≢ cn.id) ids
    → without_all ids (cn ∷ cns) ≡ cn ∷ without_all ids cns
unfolding without_all without
without_all-cons [] cn cns h = refl
without_all-cons (id ∷ ids) cn cns h =
    let other : (cn.id == id) ≡ false = ground arith in
    rw other (without_all-cons ids cn (without id cns) h.1)

without_all-scan :
    (target : ComponentTarget) (active : ℕ) (cns : List Container)
    → DistinctIds cns
    → without_all (ids_of (scan target active cns).0) cns ≡ keep target active cns
unfolding scan keep without_all without
without_all-scan target active [] d = refl
without_all-scan target active (cn ∷ cns) d = elim (Option-cases (stop_reason target active cn)) [
  | inl e ↦ rw e (
      without_all-cons (ids_of (scan target (suc active) cns).0) cn cns
        (scan-AvoidsId target (suc active) cn.id cns d.0)
      ∙ ap (λ l. cn ∷ l) (without_all-scan target (suc active) cns d.1))
  | inr (reason, e) ↦ rw e (
      ap (without_all (ids_of (scan target active cns).0)) (without_head cn cns d.0)
      ∙ without_all-scan target active cns d.1)
]

-- Every id of the list is below those of the containers that a later call makes, so every id that
-- the plan stops is, too.
scan-below :
    (target : ComponentTarget) (active bound : ℕ) (cns : List Container)
    → All (λ cn. cn.id < bound) cns
    → All (λ i. i < bound) (ids_of (scan target active cns).0)
unfolding scan
scan-below target active bound [] h = tt
scan-below target active bound (cn ∷ cns) h = elim (Option-cases (stop_reason target active cn)) [
  | inl e ↦ rw e (scan-below target (suc active) bound cns h.1)
  | inr (reason, e) ↦ rw e (h.0, scan-below target active bound cns h.1)
]

apply_plan_steps :
    (hooks : Hooks) (s : Succeeds hooks) (comp : Component) (p : ConvergePlan) (c : Converger)
    → (d : Converger) × (apply_plan hooks comp (some p) c ≡ apply_steps hooks p.steps d)
      × (d.containers ≡ c.containers)
      × (c.calls ≤ d.calls)
unfolding apply_plan after_pull
apply_plan_steps hooks s comp p c = elim (Bool-cases p.pull) [
  | inl pulls ↦ (
    effect (pulled comp) (called c),
    rw (pulls, s.pulls c.calls comp, after_pull),
    refl,
    omega arith,
  )
  | inr not_pulled ↦ (c, rw not_pulled, refl, omega arith)
]

-- When every side effect succeeds, `converge` ends without an error. The list then holds the
-- containers that were kept, which are of the target's name and version and not marked for
-- termination, and behind them new containers of the target's component, and together they are
-- as many as the target's count (none, if that is negative).
pub converge_reaches_target :
    (hooks : Hooks) (c : Converger)
    → Succeeds hooks
    → Ready hooks c
    → let target = c.current_target in
      let (d, err) = converge hooks c in
      (err ≡ none)
      × (added : List Container) × (d.containers ≡ keep target 0 c.containers ++ added)
      × All (Matches target) (keep target 0 c.containers)
      × All (IsNew target.component) added
      × (length d.containers ≡ pos_part target.count)
unfolding converge
converge_reaches_target hooks c s r =
    let target = c.current_target in
    let scanned = scan target 0 c.containers in
    let n = pos_part (target.count -ℤ pos scanned.1) in
    let comp = target.component in
    let first = get_restart_order comp =s= restart_order_startstop in
    let lock = not (get_start_parallelism comp =s= start_parallelism_parallel) in
    let steps = in_turn first (start_steps comp lock n) (stop_steps scanned.0) in
    let p : ConvergePlan = record { pull = ltb 0 n; steps = steps } in
    let (ids, of, count) = in_turn_facts comp first lock n scanned.0 in
    let (d, run, same, forward) = apply_plan_steps hooks s comp p c in
    let ready = Ready-later hooks s (sym same) forward r in
    let old : StopsOld hooks s comp steps d.calls =
      λ m cc le. rw ids (scan-below target 0 _ c.containers (r.later m cc (omega arith))) in
    let (fine, added, list, new, total) = apply_steps_list hooks s comp steps d ready of old in
    let kept = without_all-scan target 0 c.containers r.distinct in
    let whole =
      list
      ∙ ap (λ l. l ++ added)
          (ap (λ l. without_all l d.containers) ids ∙ ap (without_all _) same ∙ kept) in
    rw (plan-in_turn c.containers target, run)
      (
        fine,
        added,
        whole,
        keep-Matches target 0 c.containers,
        new,
        omega (
          arith,
          ap length whole,
          length-append (keep target 0 c.containers) added,
          scan_count target 0 c.containers,
          pos_part-sub target.count scanned.1 (scan_count_le target 0 c.containers (omega arith)),
        ),
      )
