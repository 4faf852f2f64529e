-- ===== src/NodeService/Remotes/Updated.antt =====
-- What the routers are told of the other nodes, OnClusterUpdated of pkg/maelstrom/node_svc.go.
use maelstrom.Prelude.{
  ℕ, ◌≤◌, ◌≡◌, refl, sym, ap, ◌∙◌, subst, String, true, Option, none, some, List, [], ◌⊎◌, inl, inr,
  lookup, if-cases, Bool-cases, Option-cases, arith,
}
use maelstrom.V1.{Component, NodeStatus}
use maelstrom.Db.Rows.{DbResult, ok, err}
use maelstrom.NodeService.Remotes.{
  UrlCounts, Routing, to_remote_counts_by_component, same_counts, scaled_counts, max_concur_of,
  is_given, give_all, on_cluster_updated,
}
use maelstrom.NodeService.Remotes.Loops.{
  View, view, told, taken, add_remote_nodes-DistinctKeys, give_all-view, take_back-kept,
  take_back-view,
}

-- What a component's router was told last fits the counts that the node remembers: the handlers are the
-- instances times a concurrency, and none where there are none.
abbrev pub InStep : Option UrlCounts → Option UrlCounts → Type 0
InStep none none = Unit
InStep none (some handlers) = handlers ≡ []
InStep (some counts) handlers =
    (concurrency : ℕ) × (1 ≤ concurrency) × (handlers ≡ some (scaled_counts concurrency counts))

-- The counts remembered are those of the other nodes, or the same as a map. Those of a component that
-- cannot be read stay as they were.
abbrev pub Remembers :
    DbResult Component → Option UrlCounts → Option UrlCounts → Option UrlCounts → Type 0
Remembers found none before after = after ≡ none
Remembers (ok c) (some counts) before after =
    (after ≡ some counts)
    ⊎ ((given : UrlCounts) × (after ≡ some given) × (same_counts counts given ≡ true))
Remembers (err e) (some counts) before after = after ≡ before

abbrev ViewInStep : View → Type 0
ViewInStep v = InStep v.0 v.1

positive_concurrency : (c : Component) → 1 ≤ max_concur_of c
unfolding max_concur_of
positive_concurrency c = ground arith

told-InStep :
    (counts : UrlCounts) (found : DbResult Component) (v : View)
    → ViewInStep v
    → ViewInStep (told counts found v)
told-InStep counts (err e) v k = if-cases ViewInStep (is_given counts v.0) (λ y. k) (λ n. k)
told-InStep counts (ok c) v k =
    if-cases ViewInStep (is_given counts v.0) (λ y. k)
      (λ n. (max_concur_of c, positive_concurrency c, refl))

taken-InStep : (v : View) → ViewInStep v → ViewInStep (taken v.0 v)
taken-InStep (none, h) k = k
taken-InStep (some c, h) k = refl

told-Remembers :
    (counts : UrlCounts) (found : DbResult Component) (v : View)
    → Remembers found (some counts) v.0 (told counts found v).0
unfolding is_given
told-Remembers counts (ok c) (none, h) = inl refl
told-Remembers counts (ok c) (some given, h) = elim (Bool-cases (same_counts counts given)) [
  | inl same ↦ inr (given, rw (same, is_given) refl, same)
  | inr differ ↦ inl (rw (differ, is_given) refl)
]
told-Remembers counts (err e) v =
    if-cases (λ (q : View). q.0 ≡ v.0) (is_given counts v.0) (λ y. refl) (λ n. refl)

taken-none : (v : View) → (taken v.0 v).0 ≡ none
taken-none (none, h) = refl
taken-none (some c, h) = refl

on_cluster_updated-view :
    (get : String → DbResult Component) (nodes : List NodeStatus) (my_node_id : String)
    (r : Routing) (name : String)
    → (lookup name (to_remote_counts_by_component nodes my_node_id) ≡ none)
        × (view name (on_cluster_updated get nodes my_node_id r)
            ≡ taken (lookup name r.instance_counts) (view name r))
      ⊎ ((counts : UrlCounts) × (lookup name (to_remote_counts_by_component nodes my_node_id)
            ≡ some counts)
          × (view name (on_cluster_updated get nodes my_node_id r)
              ≡ told counts (get name) (view name r)))
unfolding on_cluster_updated to_remote_counts_by_component
on_cluster_updated-view get nodes my_node_id r name =
    let remote = to_remote_counts_by_component nodes my_node_id in
    let given = give_all get remote r in
    let all =
      give_all-view get remote r name (add_remote_nodes-DistinctKeys my_node_id nodes [] tt) in
    elim (Option-cases (lookup name remote)) [
      | inl e ↦
          let same : view name given ≡ view name r = ground (arith, all, e) in
          inl (
            e,
            take_back-view remote given.instance_counts given name e ∙ ap (λ v. taken v.0 v) same,
          )
      | inr (counts, e) ↦
          let same : view name given ≡ told counts (get name) (view name r) =
            ground (arith, all, e) in
          inr (counts, e, take_back-kept remote given.instance_counts given name counts e ∙ same)
    ]

-- Where what each router was told fits what the node remembers, OnClusterUpdated keeps it so; the node then
-- remembers the counts of the component's active containers on the other nodes, or none where there are none, and
-- what it remembered before where there are some and the component cannot be read.
pub on_cluster_updated-InStep :
    (get : String → DbResult Component) (nodes : List NodeStatus) (my_node_id : String)
    (r : Routing) (name : String)
    → InStep (lookup name r.instance_counts) (lookup name r.handler_counts)
    → InStep
        (lookup name (on_cluster_updated get nodes my_node_id r).instance_counts)
        (lookup name (on_cluster_updated get nodes my_node_id r).handler_counts)
      × Remembers
          (get name)
          (lookup name (to_remote_counts_by_component nodes my_node_id))
          (lookup name r.instance_counts)
          (lookup name (on_cluster_updated get nodes my_node_id r).instance_counts)
on_cluster_updated-InStep get nodes my_node_id r name k =
    let before = lookup name r.instance_counts in
    let after = lookup name (on_cluster_updated get nodes my_node_id r).instance_counts in
    elim (on_cluster_updated-view get nodes my_node_id r name) [
      | inl (e, v) ↦ (
        subst ViewInStep (sym v) (taken-InStep (view name r) k),
        subst (λ o. Remembers (get name) o before after) (sym e)
            (ap (λ q. q.0) v ∙ taken-none (view name r)),
      )
      | inr (counts, e, v) ↦ (
        subst ViewInStep (sym v) (told-InStep counts (get name) (view name r) k),
        subst (λ o. Remembers (get name) o before after) (sym e)
            (subst (λ (q : View). Remembers (get name) (some counts) before q.0) (sym v)
              (told-Remembers counts (get name) (view name r))),
      )
    ]
