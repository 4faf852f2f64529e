-- ===== src/Cluster/Known.antt =====
-- What a node knows after each operation, pkg/maelstrom/cluster.go.
use maelstrom.Prelude.{
  ◌≡◌, ◌≢◌, ◌⊎◌, refl, String, true, false, none, some, lookup, insert, lookup-insert,
  lookup-delete, name_iff, Option-cases, Bool-cases, ◌∙◌, inl, inr, ◌=s=◌, if◌then◌else◌, arith,
}
use maelstrom.Prelude.Int.{◌≤ℤ◌}
use maelstrom.V1.{NodeStatus}
use maelstrom.Cluster.{Cluster, is_newer, set_node, remove_node, get_node_by_id}

put_in : NodeStatus → Cluster → Cluster
put_in node c = record c { nodes_by_id = insert node.node_id node c.nodes_by_id }

set_node-cases :
    (node : NodeStatus) (c : Cluster)
    → (set_node node c ≡ (put_in node c, true))
      ⊎ ((old : NodeStatus) × (lookup node.node_id c.nodes_by_id ≡ some old)
          × (node.version ≤ℤ old.version)
          × (node.observed_at ≤ℤ old.observed_at)
          × (set_node node c ≡ (c, false)))
unfolding set_node is_newer put_in
set_node-cases node c = elim (Option-cases (lookup node.node_id c.nodes_by_id)) [
  | inl e ↦ inl (rw (e, set_node) refl)
  | inr (old, e) ↦ elim (Bool-cases (is_newer node (some old))) [
    | inl newer ↦ inl (rw (e, set_node, newer) refl)
    | inr stale ↦
        inr (old, e, ground (arith, stale), ground (arith, stale), rw (e, set_node, stale) refl)
  ]
]

remove_node-known :
    (node_id : String) (c : Cluster) (old : NodeStatus)
    → lookup node_id c.nodes_by_id ≡ some old
    → ((remove_node node_id c).1 ≡ true)
      × ((k : String)
          → lookup k (remove_node node_id c).0.nodes_by_id
            ≡ (if node_id =s= k then none else lookup k c.nodes_by_id))
unfolding remove_node
remove_node-known node_id c old e =
    (ground (arith, e), λ k. ground (arith, e, lookup-delete node_id k c.nodes_by_id))

put_in-own :
    (node : NodeStatus) (c : Cluster) → lookup node.node_id (put_in node c).nodes_by_id ≡ some node
unfolding put_in
put_in-own node c = ground (
  arith,
  name_iff node.node_id node.node_id,
  lookup-insert node.node_id node.node_id node c.nodes_by_id,
)

put_in-other :
    (node : NodeStatus) (c : Cluster) (k : String)
    → k ≢ node.node_id
    → lookup k (put_in node c).nodes_by_id ≡ lookup k c.nodes_by_id
unfolding put_in
put_in-other node c k differs =
    ground
      (arith, differs, name_iff node.node_id k, lookup-insert node.node_id k node c.nodes_by_id)

without :
    (node : NodeStatus) (c : Cluster) (k : String)
    → (if node.node_id =s= k then none else lookup k (put_in node c).nodes_by_id)
      ≡ (if node.node_id =s= k then none else lookup k c.nodes_by_id)
unfolding put_in
without node c k =
    ground (arith, name_iff node.node_id k, lookup-insert node.node_id k node c.nodes_by_id)

-- After SetNode the node is known, either by the given status, and then the observers are notified,
-- or by one whose version and time are not lower, and then nothing has changed; the other nodes are
-- known as before. RemoveNode of it then notifies, and leaves every other node but not this one.
pub set_node_known :
    (node : NodeStatus) (c : Cluster)
    → let (after, notified) = set_node node c in
      (((get_node_by_id node.node_id after ≡ some node) × (notified ≡ true))
        ⊎ ((old : NodeStatus) × (get_node_by_id node.node_id c ≡ some old)
            × (node.version ≤ℤ old.version)
            × (node.observed_at ≤ℤ old.observed_at)
            × (after ≡ c)
            × (notified ≡ false)))
      × ((k : String) → k ≢ node.node_id → get_node_by_id k after ≡ get_node_by_id k c)
      × ((remove_node node.node_id after).1 ≡ true)
      × ((k : String)
          → get_node_by_id k (remove_node node.node_id after).0
            ≡ (if node.node_id =s= k then none else get_node_by_id k c))
unfolding get_node_by_id
set_node_known node c = elim (set_node-cases node c) [
  | inl e ↦
      let removed = remove_node-known node.node_id (put_in node c) node (put_in-own node c) in
      rw e (
        inl (put_in-own node c, refl),
        put_in-other node c,
        removed.0,
        λ k. removed.1 k ∙ without node c k,
      )
  | inr (old, there, version, time, e) ↦
      let removed = remove_node-known node.node_id c old there in
      rw e (inr (old, there, version, time, refl, refl), λ k differs. refl, removed.0, removed.1)
]
