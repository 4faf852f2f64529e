-- ===== src/Placement/Memory.antt =====
-- The memory that an option uses, RamUsed of pkg/maelstrom/placement.go.
use mathlib.Core.Path.{◌≡⟨◌⟩◌, ◌∎}
use maelstrom.Prelude.{
  ℕ, suc, ◌≡◌, refl, sym, subst, ap, ◌∙◌, String, true, false, ◌||◌, List, [], ◌∷◌, ◌++◌, All,
  name_iff, Bool-cases, inl, inr, ◌=s=◌, if◌then◌else◌, arith,
}
use maelstrom.Prelude.Int.{
  ℤ, pos, ◌+ℤ◌, ◌*ℤ◌, eq_of_parts, +ℤ_parts, +ℤ_comm, +ℤ_assoc, +ℤ_zero, add_one-*ℤ, zero-*ℤ,
}
use maelstrom.V1.{ComponentInfo, ComponentTarget}
use maelstrom.Placement.{
  PlacementOption, own_count, other_targets, has_target, ram_of_targets, ram_of_running,
}
use maelstrom.Placement.Counts.{running, own_count-has_target}

-- Each component has one target at most.
abbrev pub DistinctTargets : List ComponentTarget → Type 0
DistinctTargets [] = Unit
DistinctTargets (tc ∷ targets) =
    (has_target tc.component_name targets ≡ false) × DistinctTargets targets

-- Every target and every container of the component has one size.
abbrev pub TargetSize : String → ℤ → ComponentTarget → Type 0
TargetSize name ram tc = tc.component_name ≡ name → tc.required_memory_mib ≡ ram

abbrev pub RunningSize : String → ℤ → ComponentInfo → Type 0
RunningSize name ram ci = ci.component_name ≡ name → ci.memory_reserved_mib ≡ ram

abbrev pub IsUniform : String → ℤ → PlacementOption → Type 0
IsUniform name ram p =
    DistinctTargets p.input.target_counts
    × All (TargetSize name ram) p.input.target_counts
    × All (RunningSize name ram) p.target_node.running_components

module _ (name : String) (ram : ℤ) where
  unfoldable pub own_ram : List ComponentTarget → ℤ
  own_ram targets = if has_target name targets then own_count name targets (pos 0) *ℤ ram else pos 0

  absent-other_targets :
      (targets : List ComponentTarget)
      → has_target name targets ≡ false
      → other_targets name targets ≡ targets
  unfolding has_target other_targets
  absent-other_targets [] e = refl
  absent-other_targets (tc ∷ targets) e = ground (arith, e, absent-other_targets targets)

  absent-own_count :
      (targets : List ComponentTarget) (n : ℤ)
      → has_target name targets ≡ false
      → own_count name targets n ≡ n
  absent-own_count targets n e = ground (arith, e, own_count-has_target name targets n n)

  pub ram_of_targets-other_targets :
      (targets : List ComponentTarget)
      → DistinctTargets targets
      → All (TargetSize name ram) targets
      → ram_of_targets targets ≡ ram_of_targets (other_targets name targets) +ℤ own_ram targets
  unfolding ram_of_targets other_targets own_ram has_target own_count
  ram_of_targets-other_targets [] d sizes = sym (+ℤ_zero (pos 0))
  ram_of_targets-other_targets (tc ∷ targets) d sizes =
      elim (Bool-cases (tc.component_name =s= name)) [
        | inl same ↦
            let e =
              subst (λ n. has_target n targets ≡ false) ((name_iff tc.component_name name).0 same)
                d.0 in
            let size = sizes.0 ((name_iff tc.component_name name).0 same) in
            rw (same, absent-other_targets targets e, absent-own_count targets tc.target_count e)
              (ap (λ r. (tc.target_count *ℤ r) +ℤ ram_of_targets targets) size
                ∙ +ℤ_comm (tc.target_count *ℤ ram) (ram_of_targets targets))
        | inr other ↦
            let here = tc.target_count *ℤ tc.required_memory_mib in
            rw other (
              ap (λ r. here +ℤ r) (ram_of_targets-other_targets targets d.1 sizes.1)
              ∙ +ℤ_assoc here (ram_of_targets (other_targets name targets)) (own_ram targets))
      ]

  pub ram_of_targets-append :
      (targets : List ComponentTarget) (tc : ComponentTarget)
      → ram_of_targets (targets ++ tc ∷ [])
        ≡ ram_of_targets targets +ℤ (tc.target_count *ℤ tc.required_memory_mib)
  unfolding ram_of_targets
  ram_of_targets-append [] tc = +ℤ_comm (tc.target_count *ℤ tc.required_memory_mib) (pos 0)
  ram_of_targets-append (x ∷ targets) tc =
      let here = x.target_count *ℤ x.required_memory_mib in
      ap (λ r. here +ℤ r) (ram_of_targets-append targets tc)
      ∙ +ℤ_assoc here (ram_of_targets targets) (tc.target_count *ℤ tc.required_memory_mib)

  -- The component's containers without a target, which the new target takes over.
  unfoldable pub freed_ram : List ComponentTarget → List ComponentInfo → ℤ
  freed_ram targets infos =
      if has_target name targets then pos 0 else pos (running name infos) *ℤ ram

  has_target-added :
      (k : String) (tc : ComponentTarget) (targets : List ComponentTarget)
      → tc.component_name ≡ name
      → has_target k (other_targets name targets ++ tc ∷ []) ≡ (name =s= k || has_target k targets)
  unfolding has_target other_targets
  has_target-added k tc [] e = ground (arith, e, name_iff name k, name_iff tc.component_name k)
  has_target-added k tc (x ∷ targets) e = ground (
    arith,
    e,
    name_iff name k,
    name_iff x.component_name k,
    name_iff x.component_name name,
    has_target-added k tc targets,
  )

  take_over :
      (old new mem : ℤ) (r : ℕ)
      → mem ≡ ram
      → old ≡ new +ℤ (pos r *ℤ ram)
      → mem +ℤ old ≡ new +ℤ (pos (suc r) *ℤ ram)
  take_over old new mem r size e =
      let n = pos r *ℤ ram in
      let more =
        ap (λ m. m *ℤ ram)
          (eq_of_parts (pos (suc r)) (pos r +ℤ pos 1) (omega (arith, +ℤ_parts (pos r) (pos 1))))
        ∙ add_one-*ℤ (pos r) ram in
      (mem +ℤ old
        ≡⟨ +ℤ_comm mem old ⟩ old +ℤ mem
        ≡⟨ ap (λ x. x +ℤ mem) e ⟩ (new +ℤ n) +ℤ mem
        ≡⟨ ap (λ x. (new +ℤ n) +ℤ x) size ⟩ (new +ℤ n) +ℤ ram
        ≡⟨ sym (+ℤ_assoc new n ram) ⟩ new +ℤ (n +ℤ ram)
        ≡⟨ ap (λ x. new +ℤ x) (sym more) ⟩ new +ℤ (pos (suc r) *ℤ ram) ∎)

  pub ram_of_running-added :
      (tc : ComponentTarget) (targets : List ComponentTarget) (infos : List ComponentInfo)
      → tc.component_name ≡ name
      → All (RunningSize name ram) infos
      → ram_of_running targets infos
        ≡ ram_of_running (other_targets name targets ++ tc ∷ []) infos +ℤ freed_ram targets infos
  unfolding ram_of_running freed_ram running
  ram_of_running-added tc targets [] e sizes = elim (Bool-cases (has_target name targets)) [
    | inl h ↦ rw h (sym (+ℤ_zero (pos 0)))
    | inr h ↦ rw (h, zero-*ℤ ram) (sym (+ℤ_zero (pos 0)))
  ]
  ram_of_running-added tc targets (ci ∷ infos) e sizes =
      let ih = ram_of_running-added tc targets infos e sizes.1 in
      let added = has_target-added ci.component_name tc targets e in
      elim (Bool-cases (ci.component_name =s= name)) [
        | inl same ↦
            let s = (name_iff ci.component_name name).0 same in
            let new : has_target ci.component_name (other_targets name targets ++ tc ∷ []) ≡ true =
              ground (arith, added, name_iff name ci.component_name, s) in
            elim (Bool-cases (has_target name targets)) [
              | inl h ↦
                  let old = ap (λ n. has_target n targets) s ∙ h in
                  rw (old, new, same, h) (rw h at ih)
              | inr h ↦
                  let old = ap (λ n. has_target n targets) s ∙ h in
                  rw (old, new, same, h)
                    (take_over _ _ ci.memory_reserved_mib (running name infos) (sizes.0 s)
                      (rw h at ih))
            ]
        | inr differs ↦
            let new : has_target ci.component_name (other_targets name targets ++ tc ∷ [])
                ≡ has_target ci.component_name targets =
              ground (
                arith,
                added,
                differs,
                name_iff name ci.component_name,
                name_iff ci.component_name name,
              ) in
            elim (Bool-cases (has_target ci.component_name targets)) [
              | inl h ↦ rw (h, new ∙ h, differs) ih
              | inr h ↦
                  rw (h, new ∙ h, differs)
                    (ap (λ r. ci.memory_reserved_mib +ℤ r) ih
                      ∙ +ℤ_assoc ci.memory_reserved_mib
                          (ram_of_running (other_targets name targets ++ tc ∷ []) infos)
                          (freed_ram targets infos))
            ]
      ]
