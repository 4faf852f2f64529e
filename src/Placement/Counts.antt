-- ===== src/Placement/Counts.antt =====
-- The number of containers of each component under an option, pkg/maelstrom/placement.go.
use maelstrom.Prelude.{
  ℕ, suc, ◌≡◌, refl, ap, ◌∙◌, String, List, [], ◌∷◌, ◌++◌, Keyed, insert, lookup-insert, name_iff,
  Bool-cases, inl, inr, ◌=s=◌, if◌then◌else◌, arith,
}
use maelstrom.Prelude.Int.{ℤ, pos, ◌+ℤ◌, ◌-ℤ◌, ltb_ℤ, eq_of_parts, +ℤ_parts}
use maelstrom.V1.{ComponentInfo, ComponentTarget}
use maelstrom.Placement.{
  PlacementOption, count_in, count_running, count_targets, container_count_by_component, own_count,
  other_targets, has_target, clone_with_target_delta,
}

abbrev pub count_of : String → PlacementOption → ℤ
count_of name p = count_in name (container_count_by_component p).0

-- The containers of a component.
unfoldable pub running : String → List ComponentInfo → ℕ
running name [] = 0
running name (ci ∷ infos) =
    let rest = running name infos in if ci.component_name =s= name then suc rest else rest

add_again : (n : ℤ) (r : ℕ) → (n +ℤ pos 1) +ℤ pos r ≡ (n +ℤ pos (suc r))
add_again n r =
    eq_of_parts ((n +ℤ pos 1) +ℤ pos r) (n +ℤ pos (suc r))
      (omega (arith, +ℤ_parts n (pos 1), +ℤ_parts (n +ℤ pos 1) (pos r), +ℤ_parts n (pos (suc r))))

add_none : (n : ℤ) → n ≡ (n +ℤ pos 0)
add_none n = eq_of_parts n (n +ℤ pos 0) (omega (arith, +ℤ_parts n (pos 0)))

count_in-insert :
    (k name : String) (n : ℤ) (m : Keyed ℤ)
    → count_in name (insert k n m) ≡ (if k =s= name then n else count_in name m)
count_in-insert k name n m = ground (arith, lookup-insert k name n m)

pub count_running-running :
    (name : String) (infos : List ComponentInfo) (m : Keyed ℤ)
    → count_in name (count_running infos m) ≡ (count_in name m +ℤ pos (running name infos))
unfolding count_running running
count_running-running name [] m = add_none (count_in name m)
count_running-running name (ci ∷ infos) m =
    let n = count_in ci.component_name m +ℤ pos 1 in
    let ih = count_running-running name infos (insert ci.component_name n m) in
    let own = count_in-insert ci.component_name name n m in
    elim (Bool-cases (ci.component_name =s= name)) [
      | inl same ↦ rw same (
          ih
          ∙ ap (λ c. c +ℤ pos (running name infos)) (rw same at own)
          ∙ add_again (count_in ci.component_name m) (running name infos)
          ∙ ap (λ s. count_in s m +ℤ pos (suc (running name infos)))
              ((name_iff ci.component_name name).0 same))
      | inr other ↦ rw other (ih ∙ ap (λ c. c +ℤ pos (running name infos)) (rw other at own))
    ]

pub count_targets-own_count :
    (name : String) (targets : List ComponentTarget) (m : Keyed ℤ)
    → count_in name (count_targets targets m) ≡ own_count name targets (count_in name m)
unfolding count_targets own_count
count_targets-own_count name [] m = refl
count_targets-own_count name (tc ∷ targets) m =
    count_targets-own_count name targets (insert tc.component_name tc.target_count m)
    ∙ ap (own_count name targets) (count_in-insert tc.component_name name tc.target_count m)

pub own_count-append :
    (name : String) (xs ys : List ComponentTarget) (current : ℤ)
    → own_count name (xs ++ ys) current ≡ own_count name ys (own_count name xs current)
unfolding own_count
own_count-append name [] ys current = refl
own_count-append name (x ∷ xs) ys current =
    own_count-append name xs ys (if x.component_name =s= name then x.target_count else current)

pub own_count-other_targets :
    (name k : String) (targets : List ComponentTarget) (current : ℤ)
    → own_count k (other_targets name targets) current
      ≡ (if name =s= k then current else own_count k targets current)
unfolding own_count other_targets
own_count-other_targets name k [] current = ground arith
own_count-other_targets name k (tc ∷ targets) current = ground (
  arith,
  name_iff tc.component_name name,
  name_iff tc.component_name k,
  name_iff name k,
  own_count-other_targets name k targets current,
  own_count-other_targets name k targets tc.target_count,
)

pub own_count-has_target :
    (name : String) (targets : List ComponentTarget) (a b : ℤ)
    → own_count name targets a ≡ (if has_target name targets then own_count name targets b else a)
unfolding own_count has_target
own_count-has_target name [] a b = refl
own_count-has_target name (tc ∷ targets) a b = ground (
  arith,
  own_count-has_target name targets a b,
  own_count-has_target name targets tc.target_count b,
  own_count-has_target name targets tc.target_count tc.target_count,
)

-- The count that a clone starts from is the option's, whether a target has it or the containers.
pub current_count :
    (name : String) (p : PlacementOption)
    → (if ltb_ℤ (own_count name p.input.target_counts (pos 0 -ℤ pos 1)) (pos 0)
        then count_of name p
        else own_count name p.input.target_counts (pos 0 -ℤ pos 1))
      ≡ count_of name p
unfolding container_count_by_component ◌-ℤ◌
current_count name p =
    let m = count_running p.target_node.running_components [] in
    let minus_one = pos 0 -ℤ pos 1 in
    ground (
      arith,
      count_targets-own_count name p.input.target_counts m,
      own_count-has_target name p.input.target_counts minus_one (count_in name m),
      own_count-has_target name p.input.target_counts (count_in name m) minus_one,
    )

added_target :
    (k : String) (tc : ComponentTarget) (targets : List ComponentTarget) (m : Keyed ℤ)
    → count_in k (count_targets (other_targets tc.component_name targets ++ tc ∷ []) m)
      ≡ (if tc.component_name =s= k then tc.target_count else count_in k (count_targets targets m))
unfolding own_count
added_target k tc targets m =
    let others = other_targets tc.component_name targets in
    ground (
      arith,
      count_targets-own_count k (others ++ tc ∷ []) m,
      count_targets-own_count k targets m,
      own_count-append k others (tc ∷ []) (count_in k m),
      own_count-other_targets tc.component_name k targets (count_in k m),
    )

-- cloneWithTargetDelta adds the delta to the count of the component, whether the count was that of
-- running containers or of an earlier target, and leaves the count of every other component.
pub clone_with_target_delta-count_of :
    (name : String) (delta required_ram : ℤ) (p : PlacementOption) (k : String)
    → count_of k (clone_with_target_delta name delta required_ram p)
      ≡ (if name =s= k then count_of name p +ℤ delta else count_of k p)
unfolding clone_with_target_delta container_count_by_component
clone_with_target_delta-count_of name delta required_ram p k =
    let current =
      if ltb_ℤ (own_count name p.input.target_counts (pos 0 -ℤ pos 1)) (pos 0)
      then count_of name p
      else own_count name p.input.target_counts (pos 0 -ℤ pos 1) in
    added_target k
      (record {
        component_name = name;
        required_memory_mib = required_ram;
        target_count = current +ℤ delta;
      })
      p.input.target_counts (count_running p.target_node.running_components [])
    ∙ ap (λ c. if name =s= k then c +ℤ delta else count_of k p) (current_count name p)
