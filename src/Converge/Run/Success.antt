-- ===== src/Converge/Run/Success.antt =====
-- A converger whose side effects all succeed, pkg/converge/converger.go: what its list holds after
-- the steps of a plan.
use mathlib.Core.List.{append-nil, append_assoc}
use maelstrom.Prelude.{
  ℕ, suc, ◌<◌, ◌≤◌, ◌≡◌, ◌≢◌, refl, sym, ap, ◌∙◌, String, Bool, true, false, none, List, [], ◌∷◌,
  ◌++◌, All, All-append, arith, Bool-cases, inl, inr, length,
}
use maelstrom.V1.{Component, component_status_active}
use maelstrom.Converge.{Container, StartStep, StopStep, ConvergeStep, start, stop}
use maelstrom.Converge.Run.{
  Converger, Hooks, release, start_step, stop_step, start_locked, apply_step, apply_steps,
  put_container, add_container, after_check, called, created, locked, effect, post_start, notified,
  after_lock,
}
use maelstrom.Converge.Run.Containers.{
  DistinctIds, HasDockerIds, AvoidsId, without, without-All, without-DistinctIds,
  stop_and_remove_without, stop_and_remove_calls, put_container_last, DistinctIds-snoc,
}

-- Every call of a hook succeeds. New containers are of the component that is asked for, they carry
-- no termination mark, and their ids grow from call to call.
pub record Succeeds (hooks : Hooks) : Type 0 where
  pub pulls : (n : ℕ) (c : Component) → hooks.pull_image n c ≡ true
  pub locks : (n : ℕ) (c : Component) → (b : Bool) × (hooks.start_lock_acquire n c ≡ release b)
  pub starts : (n : ℕ) (cn : Container) → (hooks.start_and_health_check n cn).1 ≡ true
  pub docker_ids : (n : ℕ) (cn : Container) → (hooks.start_and_health_check n cn).0 ≢ "unused"
  pub component : (n : ℕ) (c : Component) → (hooks.create_container n c).component ≡ c
  pub unmarked : (n : ℕ) (c : Component) → (hooks.create_container n c).terminate_reason ≡ ""
  pub fresh :
      (m n : ℕ) (c d : Component)
      → m < n
      → (hooks.create_container m c).id < (hooks.create_container n d).id

-- What holds between two steps: the ids of the list are distinct, and below those of every
-- container that a later call makes.
pub record Ready (hooks : Hooks) (c : Converger) : Type 0 where
  pub distinct : DistinctIds c.containers
  pub docker_ids : HasDockerIds c.containers
  pub later :
      (n : ℕ) (comp : Component)
      → c.calls ≤ n
      → All (λ cn. cn.id < (hooks.create_container n comp).id) c.containers

-- A start step puts one new container at the end of the list.
record Grown (hooks : Hooks) (comp : Component) (c d : Converger) : Type 0 where
  cn : Container
  list : d.containers ≡ c.containers ++ cn ∷ []
  of_component : cn.component ≡ comp
  unmarked : cn.terminate_reason ≡ ""
  call : ℕ
  call_comp : Component
  named : cn.id ≡ (hooks.create_container call call_comp).id
  not_before : c.calls ≤ call
  forward : c.calls ≤ d.calls
  ready : Ready hooks d

below-AvoidsId : (id : ℕ) (cns : List Container) → All (λ cn. cn.id < id) cns → AvoidsId id cns
below-AvoidsId id [] h = tt
below-AvoidsId id (cn ∷ cns) h = (omega arith, below-AvoidsId id cns h.1)

after_check-true :
    (step : StartStep) (b : Bool) (cn : Container) (c : Converger) (h : String × Bool)
    → h.1 ≡ true
    → after_check step b cn c h ≡ (
      effect (post_start step.component b true) (
          effect notified (record c {
            containers =
                put_container
                  (record cn { container_id = h.0; status = component_status_active })
                  c.containers;
          })),
      none,
    )
unfolding after_check
after_check-true step b cn c (docker_id, true) e = refl
after_check-true step b cn c (docker_id, false) e = cc

module _ (hooks : Hooks) (s : Succeeds hooks) where
  Ready-snoc :
      (cn : Container) (c d : Converger) (call : ℕ) (comp : Component)
      → Ready hooks c
      → c.calls ≤ call
      → cn.id ≡ (hooks.create_container call comp).id
      → cn.container_id ≢ "unused"
      → d.containers ≡ c.containers ++ cn ∷ []
      → suc call ≤ d.calls
      → Ready hooks d
  Ready-snoc cn c d call comp r h named u e past =
      let avoids = below-AvoidsId _ c.containers (r.later call comp h) in
      record {
        distinct = rw e (DistinctIds-snoc cn c.containers (rw named avoids) r.distinct);
        docker_ids = rw e (All-append _ c.containers (cn ∷ []) r.docker_ids (u, tt));
        later = λ n comp' le. rw e (
            All-append _ c.containers (cn ∷ []) (r.later n comp' (omega arith))
              (rw named (s.fresh call n comp comp' (omega arith)), tt));
      }

  start_locked-Grown :
      (step : StartStep) (b : Bool) (c : Converger)
      → Ready hooks c
      → ((start_locked hooks step b c).1 ≡ none)
        × Grown hooks step.component c (start_locked hooks step b c).0
  unfolding start_locked add_container
  start_locked-Grown step b c r =
      let cn = hooks.create_container c.calls step.component in
      let h = hooks.start_and_health_check (suc c.calls) cn in
      let active = record cn { container_id = h.0; status = component_status_active } in
      let added = called (effect notified (add_container cn (effect (created cn.id) (called c)))) in
      let avoids =
        below-AvoidsId cn.id c.containers (r.later c.calls step.component (omega arith)) in
      let list = put_container_last active c.containers cn refl avoids in
      rw (after_check-true step b cn added h (s.starts (suc c.calls) cn)) (
        refl,
        record {
          cn = active;
          list = list;
          of_component = s.component c.calls step.component;
          unmarked = s.unmarked c.calls step.component;
          call = c.calls;
          call_comp = step.component;
          named = refl;
          not_before = omega arith;
          forward = omega arith;
          ready =
              Ready-snoc active c _ c.calls step.component r (omega arith) refl
                (s.docker_ids (suc c.calls) cn) list (omega arith);
        },
      )

  Grown-later :
      {comp : Component} {c d e : Converger}
      → c.containers ≡ d.containers
      → c.calls ≤ d.calls
      → Grown hooks comp d e
      → Grown hooks comp c e
  Grown-later same forward g = record {
    cn = g.cn;
    list = rw same g.list;
    of_component = g.of_component;
    unmarked = g.unmarked;
    call = g.call;
    call_comp = g.call_comp;
    named = g.named;
    not_before = omega (arith, g.not_before);
    forward = omega (arith, g.forward);
    ready = g.ready;
  }

  pub Ready-later :
      {c d : Converger}
      → c.containers ≡ d.containers
      → c.calls ≤ d.calls
      → Ready hooks c
      → Ready hooks d
  Ready-later same forward r = record {
    distinct = rw same at r.distinct;
    docker_ids = rw same at r.docker_ids;
    later = λ n comp le. rw same at (r.later n comp (omega arith));
  }

  start_step-Grown :
      (step : StartStep) (c : Converger)
      → Ready hooks c
      → ((start_step hooks step c).1 ≡ none)
        × Grown hooks step.component c (start_step hooks step c).0
  unfolding start_step after_lock
  start_step-Grown step c r = elim (Bool-cases step.lock) [
    | inr free ↦ rw free (start_locked-Grown step false c r)
    | inl wants ↦
        let (b, got) = s.locks c.calls step.component in
        let d = effect (locked step.component b) (called c) in
        let (ok, g) = start_locked-Grown step b d (Ready-later refl (omega arith) r) in
        rw wants (rw got (ok, Grown-later refl (omega arith) g))
  ]

-- What a list of steps asks for.
abbrev pub stop_ids : List ConvergeStep → List ℕ
stop_ids [] = []
stop_ids (start s ∷ steps) = stop_ids steps
stop_ids (stop s ∷ steps) = s.container_id ∷ stop_ids steps

abbrev pub count_starts : List ConvergeStep → ℕ
count_starts [] = 0
count_starts (start s ∷ steps) = suc (count_starts steps)
count_starts (stop s ∷ steps) = count_starts steps

abbrev pub StartsOf : Component → List ConvergeStep → Type 0
StartsOf comp [] = Unit
StartsOf comp (start s ∷ steps) = (s.component ≡ comp) × StartsOf comp steps
StartsOf comp (stop s ∷ steps) = StartsOf comp steps

unfoldable pub without_all : List ℕ → List Container → List Container
without_all [] cns = cns
without_all (id ∷ ids) cns = without_all ids (without id cns)

without-snoc :
    (id : ℕ) (cns : List Container) (cn : Container)
    → cn.id ≢ id
    → without id (cns ++ cn ∷ []) ≡ without id cns ++ cn ∷ []
unfolding without
without-snoc id [] cn h = ground arith
without-snoc id (other ∷ cns) cn h = ground (arith, without-snoc id cns cn)

without_all-snoc :
    (ids : List ℕ) (cns : List Container) (cn : Container)
    → All (λ id. id < cn.id) ids
    → without_all ids (cns ++ cn ∷ []) ≡ without_all ids cns ++ cn ∷ []
unfolding without_all
without_all-snoc [] cns cn h = refl
without_all-snoc (id ∷ ids) cns cn h =
    ap (without_all ids) (without-snoc id cns cn (omega arith))
    ∙ without_all-snoc ids (without id cns) cn h.1

abbrev pub IsNew : Component → Container → Type 0
IsNew comp cn = (cn.component ≡ comp) × (cn.terminate_reason ≡ "")

module _ (hooks : Hooks) (s : Succeeds hooks) (comp : Component) where
  -- No step stops a container that a later call makes.
  abbrev pub StopsOld : List ConvergeStep → ℕ → Type 0
  StopsOld steps calls =
      (n : ℕ) (c : Component)
      → calls ≤ n
      → All (λ id. id < (hooks.create_container n c).id) (stop_ids steps)

  stop_step-Ready :
      (step : StopStep) (c : Converger)
      → Ready hooks c
      → Ready hooks (stop_step step c).0
        × ((stop_step step c).0.containers ≡ without step.container_id c.containers)
        × ((stop_step step c).0.calls ≡ c.calls)
  unfolding stop_step
  stop_step-Ready step c r =
      let calls = stop_and_remove_calls step.container_id "unused" step.reason c in
      let e = stop_and_remove_without step.container_id step.reason c r.distinct r.docker_ids in
      (
        record {
          distinct = rw e (without-DistinctIds step.container_id c.containers r.distinct);
          docker_ids = rw e (without-All _ step.container_id c.containers r.docker_ids);
          later = λ n cc le.
              rw e (
                without-All _ step.container_id c.containers (r.later n cc (omega (arith, calls))));
        },
        e,
        calls,
      )

  -- The steps end without an error, and the list is what it was less the containers to stop, and
  -- then the new ones, one for each start.
  pub apply_steps_list :
      (steps : List ConvergeStep) (c : Converger)
      → Ready hooks c
      → StartsOf comp steps
      → StopsOld steps c.calls
      → let (d, err) = apply_steps hooks steps c in
        (err ≡ none)
        × (added : List Container) × (d.containers
            ≡ without_all (stop_ids steps) c.containers ++ added)
        × All (IsNew comp) added
        × (length added ≡ count_starts steps)
  unfolding apply_steps apply_step without_all
  apply_steps_list [] c r of old = (refl, [], sym (append-nil c.containers), tt, refl)
  apply_steps_list (start st ∷ steps) c r of old =
      let (ok, g) = start_step-Grown hooks s st c r in
      let (fine, added, list, new, count) =
        apply_steps_list steps (start_step hooks st c).0 g.ready of.1
          (λ n cc le. old n cc (omega (arith, g.forward))) in
      rw (ok, apply_steps)
        (
          fine,
          g.cn ∷ added,
          list
              ∙ ap (λ l. without_all (stop_ids steps) l ++ added) g.list
              ∙ ap (λ l. l ++ added)
                  (without_all-snoc (stop_ids steps) c.containers g.cn
                    (rw g.named (old g.call g.call_comp g.not_before)))
              ∙ append_assoc (without_all (stop_ids steps) c.containers) (g.cn ∷ []) added,
          ((g.of_component ∙ of.0, g.unmarked), new),
          ap suc count,
        )
  apply_steps_list (stop st ∷ steps) c r of old =
      let (ready, e, calls) = stop_step-Ready st c r in
      let (fine, added, list, new, count) =
        apply_steps_list steps (stop_step st c).0 ready of
          (λ n cc le. (old n cc (omega (arith, calls))).1) in
      (fine, added, list ∙ ap (λ l. without_all (stop_ids steps) l ++ added) e, new, count)
