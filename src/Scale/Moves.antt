-- ===== src/Scale/Moves.antt =====
-- Changes of one node's option, pkg/maelstrom/scale.go.
use maelstrom.Prelude.{
  ◌≡◌, refl, sym, ap, ◌∙◌, String, true, some, List, [], ◌∷◌, Keyed, lookup, name_iff, Bool-cases,
  inl, inr, ◌=s=◌, if◌then◌else◌, arith,
}
use maelstrom.Prelude.Int.{ℤ}
use maelstrom.V1.{ComponentTarget, NodeStatus}
use maelstrom.Placement.{
  PlacementOption, own_count, has_target, count_in, count_running, container_count_by_component,
}
use maelstrom.Placement.Counts.{
  count_of, own_count-append, own_count-has_target, count_targets-own_count,
}
use maelstrom.Scale.{merge_target_counts, not_in, merge_option, with_targets}

not_in-own_count :
    (k : String) (b a : List ComponentTarget) (c : ℤ)
    → own_count k (not_in b a) c ≡ (if has_target k b then c else own_count k a c)
unfolding not_in own_count
not_in-own_count k b [] c = ground arith
not_in-own_count k b (tc ∷ a) c = elim (Bool-cases (tc.component_name =s= k)) [
  | inl same ↦ ground (
    arith,
    same,
    ap (λ n. has_target n b) ((name_iff tc.component_name k).0 same),
    not_in-own_count k b a c,
    not_in-own_count k b a tc.target_count,
  )
  | inr other ↦ ground (arith, other, not_in-own_count k b a c)
]

-- mergeTargetCounts takes the count of a component from its second argument, and from the first only
-- if the second has no target of the component.
pub merge_target_counts-own_count :
    (k : String) (a b : List ComponentTarget) (c : ℤ)
    → own_count k (merge_target_counts a b) c
      ≡ (if has_target k b then own_count k b c else own_count k a c)
unfolding merge_target_counts
merge_target_counts-own_count k a b c = ground (
  arith,
  own_count-append k b (not_in b a) c,
  not_in-own_count k b a (own_count k b c),
  own_count-has_target k b c c,
)

merge_option-found :
    (options : Keyed PlacementOption) (p previous : PlacementOption)
    → lookup p.target_node.node_id options ≡ some previous
    → merge_option options p
      ≡ with_targets (merge_target_counts p.input.target_counts previous.input.target_counts) p
unfolding merge_option
merge_option-found options p previous found = rw (found, merge_option) refl

with_targets-count_of :
    (k : String) (targets : List ComponentTarget) (p : PlacementOption)
    → count_of k (with_targets targets p)
      ≡ own_count k targets (count_in k (count_running p.target_node.running_components []))
unfolding container_count_by_component
with_targets-count_of k targets p =
    count_targets-own_count k targets (count_running p.target_node.running_components [])

-- mergeOption drops what an option newly says of a component that the node's option has a target of:
-- the component's count is the one before, so the second of two starts or stops of a component on
-- one node has no effect.
pub merge_option_drops :
    (k : String) (options : Keyed PlacementOption) (p previous : PlacementOption)
    → lookup p.target_node.node_id options ≡ some previous
    → p.target_node ≡ previous.target_node
    → has_target k previous.input.target_counts ≡ true
    → count_of k (merge_option options p) ≡ count_of k previous
merge_option_drops k options p previous found one_node targeted =
    let before = previous.input.target_counts in
    let merged = merge_target_counts p.input.target_counts before in
    let running = λ (n : NodeStatus). count_in k (count_running n.running_components []) in
    ap (count_of k) (merge_option-found options p previous found)
    ∙ with_targets-count_of k merged p
    ∙ merge_target_counts-own_count k p.input.target_counts before (running p.target_node)
    ∙ rw targeted (ap (λ n. own_count k before (running n)) one_node)
    ∙ sym (with_targets-count_of k before previous)
