-- ===== src/Placement/Growth.antt =====
-- How the memory of an option grows by one container, RamUsed of pkg/maelstrom/placement.go.
use maelstrom.Prelude.{
  ◌≡◌, lookup, refl, sym, ap, ◌∙◌, String, [], ◌∷◌, ◌++◌, Bool-cases, inl, inr, arith,
}
use maelstrom.Prelude.Int.{
  ℤ, pos, pos_part, neg_part, ◌+ℤ◌, ◌*ℤ◌, eq_of_parts, +ℤ_parts, +ℤ_comm, +ℤ_zero, add_one-*ℤ,
}
use maelstrom.V1.{ComponentTarget}
use maelstrom.Placement.{
  PlacementOption, count_running, container_count_by_component, own_count, other_targets,
  has_target, clone_with_target_delta, ram_of_targets, ram_of_running, ram_used,
}
use maelstrom.Placement.Counts.{
  count_of, running, count_running-running, count_targets-own_count, own_count-has_target,
  current_count,
}
use maelstrom.Placement.Memory.{
  IsUniform, own_ram, freed_ram, ram_of_targets-append, ram_of_targets-other_targets,
  ram_of_running-added,
}

module _ (name : String) (ram : ℤ) where
  count_of-running :
      (p : PlacementOption)
      → count_of name p
        ≡ own_count name p.input.target_counts (pos (running name p.target_node.running_components))
  unfolding container_count_by_component ◌+ℤ◌ lookup
  count_of-running p =
      let infos = p.target_node.running_components in
      count_targets-own_count name p.input.target_counts (count_running infos [])
      ∙ ap (own_count name p.input.target_counts) (
          count_running-running name infos []
          ∙ +ℤ_comm (pos 0) (pos (running name infos))
          ∙ +ℤ_zero (pos (running name infos)))

  own-freed :
      (p : PlacementOption)
      → own_ram name ram p.input.target_counts
          +ℤ freed_ram name ram p.input.target_counts p.target_node.running_components
        ≡ count_of name p *ℤ ram
  unfolding own_ram freed_ram
  own-freed p =
      let targets = p.input.target_counts in
      let n = pos (running name p.target_node.running_components) in
      let known = own_count-has_target name targets n (pos 0) in
      elim (Bool-cases (has_target name targets)) [
        | inl h ↦ rw h (
            +ℤ_zero (own_count name targets (pos 0) *ℤ ram)
            ∙ ap (λ c. c *ℤ ram) (sym (count_of-running p ∙ rw h at known)))
        | inr h ↦ rw h (
            +ℤ_comm (pos 0) (n *ℤ ram)
            ∙ +ℤ_zero (n *ℤ ram)
            ∙ ap (λ c. c *ℤ ram) (sym (count_of-running p ∙ rw h at known)))
      ]

  rearranged :
      (t own rest freed one_more : ℤ)
      → own +ℤ freed +ℤ ram ≡ one_more
      → (t +ℤ one_more) +ℤ rest ≡ ((t +ℤ own) +ℤ (rest +ℤ freed)) +ℤ ram
  rearranged t own rest freed one_more e =
      let sum = +ℤ_parts (own +ℤ freed) ram in
      eq_of_parts _ _ (
        omega (
          arith,
          ap pos_part e,
          ap neg_part e,
          +ℤ_parts own freed,
          sum,
          +ℤ_parts t one_more,
          +ℤ_parts (t +ℤ one_more) rest,
          +ℤ_parts t own,
          +ℤ_parts rest freed,
          +ℤ_parts (t +ℤ own) (rest +ℤ freed),
          +ℤ_parts ((t +ℤ own) +ℤ (rest +ℤ freed)) ram,
        ))

  grown :
      (p : PlacementOption) (tc : ComponentTarget)
      → IsUniform name ram p
      → tc.component_name ≡ name
      → tc.required_memory_mib ≡ ram
      → tc.target_count ≡ count_of name p +ℤ pos 1
      → ram_of_targets (other_targets name p.input.target_counts ++ tc ∷ [])
          +ℤ ram_of_running
              (other_targets name p.input.target_counts ++ tc ∷ [])
              p.target_node.running_components
        ≡ (ram_of_targets p.input.target_counts
            +ℤ ram_of_running p.input.target_counts p.target_node.running_components)
          +ℤ ram
  grown p tc uniform named size one_more =
      let targets = p.input.target_counts in
      let infos = p.target_node.running_components in
      let others = other_targets name targets in
      let rest = ram_of_running (others ++ tc ∷ []) infos in
      let here =
        ap (λ x. x +ℤ ram) (own-freed p)
        ∙ sym (
            ap (λ m. tc.target_count *ℤ m) size
            ∙ ap (λ c. c *ℤ ram) one_more
            ∙ add_one-*ℤ (count_of name p) ram) in
      ap (λ x. x +ℤ rest) (ram_of_targets-append name ram others tc)
      ∙ rearranged (ram_of_targets others) (own_ram name ram targets) rest
          (freed_ram name ram targets infos) (tc.target_count *ℤ tc.required_memory_mib) here
      ∙ ap (λ x. (x +ℤ (rest +ℤ freed_ram name ram targets infos)) +ℤ ram)
          (sym (ram_of_targets-other_targets name ram targets uniform.0 uniform.1))
      ∙ ap (λ x. (ram_of_targets targets +ℤ x) +ℤ ram)
          (sym (ram_of_running-added name ram tc targets infos named uniform.2))

-- Where every target and every container of the component has the size `ram`, and each component
-- has one target at most, one more container of the component uses `ram` more.
pub ram_used-clone_with_target_delta :
    (name : String) (ram : ℤ) (p : PlacementOption)
    → IsUniform name ram p
    → ram_used (clone_with_target_delta name (pos 1) ram p) ≡ ram_used p +ℤ ram
unfolding ram_used clone_with_target_delta container_count_by_component
ram_used-clone_with_target_delta name ram p uniform =
    grown name ram p _ uniform refl refl (ap (λ c. c +ℤ pos 1) (current_count name p))
