-- ===== src/Placement/Best/Outcome.antt =====
-- What BestStartComponentOption and BestStopComponentOption of pkg/maelstrom/placement.go choose.
use maelstrom.Prelude.{
  ◌≡◌, ◌⊎◌, refl, sym, ap, subst, ◌∙◌, String, Bool, false, Option, some, some-injective, List, [],
  ◌∷◌, Memᴰ, Memᴰ-cons, Keyed, name_iff, Option-cases, inl, inr, arith,
}
use maelstrom.Prelude.Int.{ℤ, pos, pos_part, neg_part, ◌+ℤ◌, ◌-ℤ◌, ◌≤ℤ◌, +ℤ_parts, -ℤ_parts}
use maelstrom.V1.{NodeStatus}
use maelstrom.Placement.{PlacementOption, clone_with_target_delta, ram_used, ram_for_component}
use maelstrom.Placement.Counts.{count_of, clone_with_target_delta-count_of}
use maelstrom.Placement.Memory.{IsUniform}
use maelstrom.Placement.Growth.{ram_used-clone_with_target_delta}
use maelstrom.Placement.Best.{
  sort, cost_less, with_memory, start_option, options_of, with_sorted_targets, first, last,
  best_start_component_option, stop_option, best_stop_component_option,
}
use maelstrom.Placement.Best.Sorting.{
  sort-Memᴰ, with_sorted_targets-ram_used, with_sorted_targets-count_of,
}

options_of-from :
    (option : PlacementOption → Option PlacementOption) (nodes : Keyed PlacementOption)
    (q : PlacementOption)
    → Memᴰ q (options_of option nodes)
    → (k : String) × ((p : PlacementOption) × Memᴰ (k, p) nodes × (option p ≡ some q))
unfolding options_of
options_of-from option [] q m = elim m [ ]
options_of-from option ((k, p) ∷ nodes) q m =
    let more : Memᴰ q (options_of option nodes)
        → (j : String) × ((o : PlacementOption) × Memᴰ (j, o) ((k, p) ∷ nodes)
            × (option o ≡ some q)) =
      λ n.
        let found = options_of-from option nodes q n in
        (found.0, (found.1.0, Memᴰ.tail (found.1.1), found.1.2)) in
    elim (Option-cases (option p)) [
      | inl e ↦ more (rw (e, options_of) at m)
      | inr (o, e) ↦ elim (Memᴰ-cons (rw (e, options_of) at m)) [
        | inl same ↦ (k, (p, Memᴰ.head refl, e ∙ ap some (sym same)))
        | inr n ↦ more n
      ]
    ]

first-in : (ps : List PlacementOption) (q : PlacementOption) → first ps ≡ some q → Memᴰ q ps
unfolding first
first-in [] q e = absurd (ground (arith, e))
first-in (p ∷ ps) q e = Memᴰ.head (sym (some-injective p q e))

last-in : (ps : List PlacementOption) (q : PlacementOption) → last ps ≡ some q → Memᴰ q ps
unfolding last
last-in [] q e = absurd (ground (arith, e))
last-in (p ∷ []) q e = Memᴰ.head (sym (some-injective p q e))
last-in (p ∷ (r ∷ ps)) q e = Memᴰ.tail (last-in (r ∷ ps) q e)

module _ (name : String) where
  clone-own :
      (delta ram : ℤ) (p : PlacementOption)
      → count_of name (clone_with_target_delta name delta ram p) ≡ count_of name p +ℤ delta
  clone-own delta ram p =
      ground (arith, clone_with_target_delta-count_of name delta ram p name, name_iff name name)

  start_without_displacing :
      (required max_per_node : ℤ) (p q : PlacementOption)
      → start_option name required max_per_node false p ≡ some q
      → (q ≡ clone_with_target_delta name (pos 1) required p)
        × (required ≤ℤ (p.target_node.total_memory_mib -ℤ ram_used p))
        × ((max_per_node ≤ℤ pos 0) ⊎ (count_of name p +ℤ pos 1 ≤ℤ max_per_node))
  unfolding start_option with_memory
  start_without_displacing required max_per_node p q e =
      ground (arith, e, +ℤ_parts (count_of name p) (pos 1))

  best_start-from :
      (nodes : Keyed PlacementOption) (required max_per_node : ℤ) (displace_ok : Bool)
      (q : PlacementOption)
      → best_start_component_option nodes name required max_per_node displace_ok ≡ some q
      → (k : String) × ((p : PlacementOption) × Memᴰ (k, p) nodes
          × ((o : PlacementOption) × (start_option name required max_per_node displace_ok p
                ≡ some o)
              × (q ≡ with_sorted_targets o)))
  unfolding best_start_component_option
  best_start-from nodes required max_per_node displace_ok q e =
      let options = options_of (start_option name required max_per_node displace_ok) nodes in
      let chosen = sort (cost_less name) options in
      elim (Option-cases (first chosen)) [
        | inl f ↦ absurd (ground (arith, e, f))
        | inr (o, f) ↦
            let found =
              options_of-from (start_option name required max_per_node displace_ok) nodes o
                (sort-Memᴰ (cost_less name) o options (first-in chosen o f)) in
            (
              found.0,
              (
                found.1.0,
                found.1.1,
                (
                  o,
                  found.1.2,
                  sym (
                      some-injective (with_sorted_targets o) q
                        (rw (f, best_start_component_option) at e)),
                ),
              ),
            )
      ]

  cloned_node :
      (delta ram : ℤ) (p o : PlacementOption)
      → o ≡ clone_with_target_delta name delta ram p
      → o.target_node ≡ p.target_node
  unfolding clone_with_target_delta
  cloned_node delta ram p o cloned = ap PlacementOption.target_node cloned

  stop_option-stops :
      (p q : PlacementOption)
      → stop_option name p ≡ some q
      → (q ≡ clone_with_target_delta name (pos 0 -ℤ pos 1) (ram_for_component name p) p)
        × (pos 1 ≤ℤ count_of name p)
  unfolding stop_option
  stop_option-stops p q e = ground (arith, e)

  chosen_node :
      (delta ram : ℤ) (p o q : PlacementOption)
      → o ≡ clone_with_target_delta name delta ram p
      → q ≡ with_sorted_targets o
      → q.target_node ≡ p.target_node
  unfolding with_sorted_targets clone_with_target_delta
  chosen_node delta ram p o q cloned sorted =
      ap PlacementOption.target_node sorted ∙ ap PlacementOption.target_node cloned

  chosen_count :
      (delta ram : ℤ) (p o q : PlacementOption)
      → o ≡ clone_with_target_delta name delta ram p
      → q ≡ with_sorted_targets o
      → count_of name q ≡ count_of name p +ℤ delta
  chosen_count delta ram p o q cloned sorted =
      ap (count_of name) sorted
      ∙ with_sorted_targets-count_of name o
      ∙ ap (count_of name) cloned
      ∙ clone-own delta ram p

  chosen_fits :
      (required : ℤ) (p o q : PlacementOption)
      → o ≡ clone_with_target_delta name (pos 1) required p
      → q ≡ with_sorted_targets o
      → required ≤ℤ (p.target_node.total_memory_mib -ℤ ram_used p)
      → IsUniform name required p
      → ram_used q ≤ℤ q.target_node.total_memory_mib
  chosen_fits required p o q cloned sorted enough uniform =
      let used =
        ap ram_used sorted
        ∙ with_sorted_targets-ram_used o
        ∙ ap ram_used cloned
        ∙ ram_used-clone_with_target_delta name required p uniform in
      let total =
        ap NodeStatus.total_memory_mib (chosen_node (pos 1) required p o q cloned sorted) in
      omega (
        arith,
        ap pos_part used,
        ap neg_part used,
        ap pos_part total,
        ap neg_part total,
        enough,
        -ℤ_parts p.target_node.total_memory_mib (ram_used p),
        +ℤ_parts (ram_used p) required,
      )

  within :
      (max_per_node : ℤ) {n m : ℤ}
      → m ≡ n
      → (max_per_node ≤ℤ pos 0) ⊎ (n ≤ℤ max_per_node)
      → (max_per_node ≤ℤ pos 0) ⊎ (m ≤ℤ max_per_node)
  within max_per_node {n} e limit =
      subst (λ x. (max_per_node ≤ℤ pos 0) ⊎ (x ≤ℤ max_per_node)) (sym e) limit

-- If BestStartComponentOption chooses a node and may not displace, then it is one of the given
-- nodes, and the component has one container more there than before, within the limit for each node
-- if there is one. The memory used is at most the node's, where every target and every container of
-- the component on that node has the required size and each component has one target at most.
pub best_start_component_option_fits :
    (nodes : Keyed PlacementOption) (name : String) (required max_per_node : ℤ)
    (q : PlacementOption)
    → best_start_component_option nodes name required max_per_node false ≡ some q
    → (k : String) × ((p : PlacementOption) × Memᴰ (k, p) nodes
        × (q.target_node ≡ p.target_node)
        × (count_of name q ≡ count_of name p +ℤ pos 1)
        × ((max_per_node ≤ℤ pos 0) ⊎ (count_of name q ≤ℤ max_per_node))
        × (IsUniform name required p → ram_used q ≤ℤ q.target_node.total_memory_mib))
best_start_component_option_fits nodes name required max_per_node q e =
    let (k, (p, m, (o, started, sorted))) =
      best_start-from name nodes required max_per_node false q e in
    let (cloned, enough, limit) = start_without_displacing name required max_per_node p o started in
    let count = chosen_count name (pos 1) required p o q cloned sorted in
    (
      k,
      (
        p,
        m,
        chosen_node name (pos 1) required p o q cloned sorted,
        count,
        within name max_per_node count limit,
        chosen_fits name required p o q cloned sorted enough,
      ),
    )

-- If BestStopComponentOption chooses a node, then it is one of the given nodes, and the component
-- has at least one container there before, and one less after.
pub best_stop_component_option_one_less :
    (nodes : Keyed PlacementOption) (name : String) (q : PlacementOption)
    → best_stop_component_option nodes name ≡ some q
    → (k : String) × ((p : PlacementOption) × Memᴰ (k, p) nodes
        × (q.target_node ≡ p.target_node)
        × (pos 1 ≤ℤ count_of name p)
        × (count_of name q ≡ count_of name p +ℤ (pos 0 -ℤ pos 1)))
unfolding best_stop_component_option
best_stop_component_option_one_less nodes name q e =
    let options = options_of (stop_option name) nodes in
    let chosen = sort (cost_less name) options in
    let (k, (p, m, stopped)) =
      options_of-from (stop_option name) nodes q
        (sort-Memᴰ (cost_less name) q options (last-in chosen q e)) in
    let (cloned, some_there) = stop_option-stops name p q stopped in
    (
      k,
      (
        p,
        m,
        cloned_node name (pos 0 -ℤ pos 1) (ram_for_component name p) p q cloned,
        some_there,
        ap (count_of name) cloned ∙ clone-own name (pos 0 -ℤ pos 1) (ram_for_component name p) p,
      ),
    )
