-- ===== src/NodeService/Remotes/Loops.antt =====
-- The loops of OnClusterUpdated for one component, pkg/maelstrom/node_svc.go.
use maelstrom.Prelude.{
  ◌≡◌, refl, ◌∙◌, String, Option, none, some, List, [], ◌∷◌, inl, inr, Keyed, lookup, insert,
  delete, lookup-insert, lookup-delete, DistinctKeys, insert-DistinctKeys, ◌=s=◌, name_iff,
  if◌then◌else◌, if-cases, Option-cases, arith,
}
use maelstrom.V1.{Component, ComponentInfo, NodeStatus, component_status_active}
use maelstrom.Db.Rows.{DbResult, ok, err}
use maelstrom.MaelService.Answers.{DbResult-cases}
use maelstrom.NodeService.Remotes.{
  UrlCounts, Routing, add_infos, add_remote_nodes, scaled_counts, max_concur_of, give_counts,
  is_given, give_all, take_back,
}

-- The instances and the handlers that a component's router was told.
abbrev pub View : Type 0
View = Option UrlCounts × Option UrlCounts

abbrev pub view : String → Routing → View
view name r = (lookup name r.instance_counts, lookup name r.handler_counts)

-- One component on other nodes, and one that is on none.
abbrev pub told : UrlCounts → DbResult Component → View → View
told counts found v = if is_given counts v.0 then v else elim found [
  | err e ↦ v
  | ok c ↦ (some counts, some (scaled_counts (max_concur_of c) counts))
]

abbrev pub taken : Option UrlCounts → View → View
taken given v = elim given [ none ↦ v | some c ↦ (none, some []) ]

add_infos-DistinctKeys :
    (url : String) (infos : List ComponentInfo) (m : Keyed UrlCounts)
    → DistinctKeys m
    → DistinctKeys (add_infos url infos m)
unfolding add_infos
add_infos-DistinctKeys url [] m d = d
add_infos-DistinctKeys url (rc ∷ infos) m d = add_infos-DistinctKeys url infos _ (
    if-cases DistinctKeys (rc.status =s= component_status_active)
      (λ on. insert-DistinctKeys rc.component_name _ m d) (λ off. d))

pub add_remote_nodes-DistinctKeys :
    (my_node_id : String) (nodes : List NodeStatus) (m : Keyed UrlCounts)
    → DistinctKeys m
    → DistinctKeys (add_remote_nodes my_node_id nodes m)
unfolding add_remote_nodes
add_remote_nodes-DistinctKeys my_node_id [] m d = d
add_remote_nodes-DistinctKeys my_node_id (node ∷ nodes) m d =
    add_remote_nodes-DistinctKeys my_node_id nodes _ (
      if-cases DistinctKeys (node.node_id =s= my_node_id) (λ mine. d)
        (λ other. add_infos-DistinctKeys node.peer_url node.running_components m d))

-- What one turn of the first loop leaves.
abbrev give_one : (String → DbResult Component) → String → UrlCounts → Routing → Routing
give_one get k counts r =
    if is_given counts (lookup k r.instance_counts) then r else give_counts k counts (get k) r

give_one-view :
    (get : String → DbResult Component) (k : String) (counts : UrlCounts) (r : Routing)
    (name : String)
    → view name (give_one get k counts r)
      ≡ (if k =s= name then told counts (get k) (view k r) else view name r)
unfolding give_counts
give_one-view get k counts r name = elim (DbResult-cases (get k)) [
  | inl (c, e) ↦ ground (
    arith,
    e,
    name_iff k name,
    lookup-insert k name counts r.instance_counts,
    lookup-insert k name (scaled_counts (max_concur_of c) counts) r.handler_counts,
  )
  | inr (x, e) ↦ ground (arith, e, name_iff k name)
]

pub give_all-view :
    (get : String → DbResult Component) (remote : Keyed UrlCounts) (r : Routing) (name : String)
    → DistinctKeys remote
    → view name (give_all get remote r) ≡ elim (lookup name remote) [
      | none ↦ view name r
      | some counts ↦ told counts (get name) (view name r)
    ]
unfolding give_all lookup
give_all-view get [] r name d = refl
give_all-view get ((k, counts) ∷ remote) r name (fresh, d) =
    let next = give_all-view get remote (give_one get k counts r) name d in
    let one = give_one-view get k counts r name in ground (arith, next, one, name_iff k name, fresh)

-- One turn of the second loop.
abbrev take_one : Keyed UrlCounts → String → Routing → Routing
take_one remote k r = elim (lookup k remote) [
  | some c ↦ r
  | none ↦ record {
    instance_counts = delete k r.instance_counts;
    handler_counts = insert k [] r.handler_counts;
  }
]

take_one-view :
    (remote : Keyed UrlCounts) (k : String) (r : Routing) (name : String)
    → lookup name remote ≡ none
    → view name (take_one remote k r) ≡ (if k =s= name then (none, some []) else view name r)
take_one-view remote k r name e = elim (Option-cases (lookup k remote)) [
  | inl x ↦ ground (
    arith,
    x,
    name_iff k name,
    lookup-delete k name r.instance_counts,
    lookup-insert k name [] r.handler_counts,
  )
  | inr (c, x) ↦ ground (arith, x, e, name_iff k name)
]

take_one-kept :
    (remote : Keyed UrlCounts) (k : String) (r : Routing) (name : String) (counts : UrlCounts)
    → lookup name remote ≡ some counts
    → view name (take_one remote k r) ≡ view name r
take_one-kept remote k r name counts e = elim (Option-cases (lookup k remote)) [
  | inl x ↦ ground (
    arith,
    x,
    e,
    name_iff k name,
    lookup-delete k name r.instance_counts,
    lookup-insert k name [] r.handler_counts,
  )
  | inr (c, x) ↦ rw (x, take_one) refl
]

pub take_back-kept :
    (remote given : Keyed UrlCounts) (r : Routing) (name : String) (counts : UrlCounts)
    → lookup name remote ≡ some counts
    → view name (take_back remote given r) ≡ view name r
unfolding take_back
take_back-kept remote [] r name counts e = refl
take_back-kept remote ((k, c) ∷ given) r name counts e =
    take_back-kept remote given (take_one remote k r) name counts e
    ∙ take_one-kept remote k r name counts e

pub take_back-view :
    (remote given : Keyed UrlCounts) (r : Routing) (name : String)
    → lookup name remote ≡ none
    → view name (take_back remote given r) ≡ taken (lookup name given) (view name r)
unfolding take_back lookup
take_back-view remote [] r name e = refl
take_back-view remote ((k, c) ∷ given) r name e =
    let next = take_back-view remote given (take_one remote k r) name e in
    let one = take_one-view remote k r name e in ground (arith, next, one, name_iff k name)
