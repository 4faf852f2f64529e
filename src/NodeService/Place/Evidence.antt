-- ===== src/NodeService/Place/Evidence.antt =====
-- What PlaceComponent learns of the other nodes, pkg/maelstrom/node_svc.go.
use maelstrom.Prelude.{
  ◌≡◌, refl, ◌⊎◌, inl, inr, String, true, false, ◌&&◌, Option, none, some, List, [], ◌∷◌, ◌≢◌,
  ◌=s=◌, name_iff, not, Memᴰ, if◌then◌else◌, Option-cases, Bool-cases, subst, sym, Memᴰ-cons,
  Memᴰ-append, if-cases, arith,
}
use maelstrom.Prelude.Int.{ℤ, ltb_ℤ}
use maelstrom.V1.{Component, ComponentInfo, NodeStatus, component_status_stopping}
use maelstrom.Placement.{PlacementOption}
use maelstrom.Placement.Best.{best_start_component_option}
use maelstrom.Cluster.{Cluster, set_node}
use maelstrom.Db.Rows.{ok}
use maelstrom.NodeService.Status.{get_nodes}
use maelstrom.NodeService.Place.{
  Round, StartReply, confirm, is_started, large_nodes, nodes_with_component,
  new_placement_options_by_node_id, wait_until_component_running, runs_component, for_each_info,
}

-- A container of the component in a list, and one that is not stopping.
abbrev pub HasContainer : String → List ComponentInfo → Type 0
HasContainer name infos = (c : ComponentInfo) × Memᴰ c infos × (c.component_name ≡ name)

abbrev pub HasStarted : String → List ComponentInfo → Type 0
HasStarted name infos =
    (c : ComponentInfo) × Memᴰ c infos
    × (c.component_name ≡ name)
    × (c.status ≢ component_status_stopping)

-- A node of the cluster that was known to have the component says that it has a container of it that is not stopping.
abbrev pub IsConfirmed : String → Round → Cluster → NodeStatus → Type 0
IsConfirmed name round c s =
    (node : NodeStatus) × Memᴰ node (get_nodes c)
    × HasContainer name node.running_components
    × (round.get_status node ≡ some s)
    × HasStarted name s.running_components

-- Before the wait is over a node has a container of the component: at first, or in a later answer to which all
-- answers before were given.
abbrev pub Appears : String → List (Option NodeStatus) → NodeStatus → Type 0
Appears name [] s = ⊥
Appears name (none ∷ polls) s = HasContainer name s.running_components
Appears name (some next ∷ polls) s =
    HasContainer name s.running_components ⊎ Appears name polls next

-- The reply to the start has no errors and no mismatch of the version, its status is `s`, and the component
-- appears before the wait is over.
abbrev pub Runs : Round → StartReply → NodeStatus → Type 0
Runs round reply s =
    (comp : Component) × (round.component ≡ ok comp)
    × (reply.failed ≡ false)
    × (reply.errors ≡ 0)
    × (reply.version_mismatch ≡ false)
    × (reply.target_status ≡ some s)
    × Appears comp.name round.polls s

-- The nodes with more memory than the component needs.
abbrev pub with_more : ℤ → List NodeStatus → List NodeStatus
with_more required [] = []
with_more required (n ∷ nodes) =
    if ltb_ℤ required n.total_memory_mib
    then n ∷ with_more required nodes
    else with_more required nodes

-- The best option among the cluster's nodes that have more memory than is needed was started.
abbrev pub IsStarted : String → ℤ → ℤ → Round → Cluster → NodeStatus → Type 0
IsStarted name required max_inst round c s =
    (option : PlacementOption) × (best_start_component_option
        (new_placement_options_by_node_id (with_more required (get_nodes c)) []) name required
        max_inst true
      ≡ some option)
    × Runs round (round.start_stop option) s

pub large_nodes-with_more :
    (required : ℤ) (nodes : List NodeStatus) → large_nodes required nodes ≡ with_more required nodes
unfolding large_nodes
large_nodes-with_more required [] = refl
large_nodes-with_more required (n ∷ nodes) = ground (arith, large_nodes-with_more required nodes)

is_started-HasStarted :
    (name : String) (infos : List ComponentInfo)
    → is_started name infos ≡ true
    → HasStarted name infos
unfolding is_started
is_started-HasStarted name [] e = ground (arith, e)
is_started-HasStarted name (c ∷ infos) e =
    elim (Bool-cases (c.component_name =s= name && not (c.status =s= component_status_stopping))) [
      | inl x ↦ (
        c,
        Memᴰ.head refl,
        (name_iff c.component_name name).0 (ground (arith, x)),
        λ same. ground (arith, x, (name_iff c.status component_status_stopping).1 same),
      )
      | inr x ↦
          let (d, m, named, up) = is_started-HasStarted name infos (ground (arith, x, e)) in
          (d, Memᴰ.tail m, named, up)
    ]

runs_component-HasContainer :
    (name : String) (infos : List ComponentInfo)
    → runs_component name infos ≡ true
    → HasContainer name infos
unfolding runs_component
runs_component-HasContainer name [] e = ground (arith, e)
runs_component-HasContainer name (c ∷ infos) e = elim (Bool-cases (c.component_name =s= name)) [
  | inl x ↦ (c, Memᴰ.head refl, (name_iff c.component_name name).0 x)
  | inr x ↦
      let (d, m, named) = runs_component-HasContainer name infos (ground (arith, x, e)) in
      (d, Memᴰ.tail m, named)
]

pub wait-Appears :
    (name : String) (polls : List (Option NodeStatus)) (s : NodeStatus)
    → (wait_until_component_running name polls s).1 ≡ true
    → Appears name polls s
unfolding wait_until_component_running
wait-Appears name [] s e = ground (arith, e)
wait-Appears name (none ∷ polls) s e =
    elim (Bool-cases (runs_component name s.running_components)) [
      | inl x ↦ runs_component-HasContainer name s.running_components x
      | inr x ↦ ground (arith, x, e)
    ]
wait-Appears name (some next ∷ polls) s e =
    elim (Bool-cases (runs_component name s.running_components)) [
      | inl x ↦ inl (runs_component-HasContainer name s.running_components x)
      | inr x ↦ inr (wait-Appears name polls next (ground (arith, x, e)))
    ]

for_each_info-HasContainer :
    (name : String) (n node : NodeStatus) (infos : List ComponentInfo)
    → Memᴰ node (for_each_info name n infos)
    → (node ≡ n) × HasContainer name infos
unfolding for_each_info
for_each_info-HasContainer name n node [] m = elim m [ ]
for_each_info-HasContainer name n node (c ∷ infos) m =
    let later : Memᴰ node (for_each_info name n infos)
        → (node ≡ n) × HasContainer name (c ∷ infos) =
      λ t.
        let (same, (d, member, named)) = for_each_info-HasContainer name n node infos t in
        (same, (d, Memᴰ.tail member, named)) in
    if-cases
      (λ (nodes : List NodeStatus). Memᴰ node nodes → (node ≡ n) × HasContainer name (c ∷ infos))
      (c.component_name =s= name)
      (λ x found. elim (Memᴰ-cons {x = node} {y = n} {ys = for_each_info name n infos} found) [
        | inl same ↦ (same, (c, Memᴰ.head refl, (name_iff c.component_name name).0 x))
        | inr t ↦ later t
      ])
      (λ x. later) m

nodes_with_component-HasContainer :
    (name : String) (node : NodeStatus) (nodes : List NodeStatus)
    → Memᴰ node (nodes_with_component name nodes)
    → Memᴰ node nodes × HasContainer name node.running_components
unfolding nodes_with_component
nodes_with_component-HasContainer name node [] m = elim m [ ]
nodes_with_component-HasContainer name node (n ∷ nodes) m =
    elim (Memᴰ-append node (for_each_info name n n.running_components)
      (nodes_with_component name nodes) m) [
        | inl x ↦
            let (same, has) = for_each_info-HasContainer name n node n.running_components x in
            (
              Memᴰ.head same,
              subst (λ k. HasContainer name (NodeStatus.running_components k)) (sym same) has,
            )
        | inr x ↦
            let (member, has) = nodes_with_component-HasContainer name node nodes x in
            (Memᴰ.tail member, has)
      ]

-- One of the nodes asked says that it has a container.
abbrev Says : Round → String → List NodeStatus → NodeStatus → Type 0
Says round name nodes s =
    (node : NodeStatus) × Memᴰ node nodes
    × (round.get_status node ≡ some s)
    × HasStarted name s.running_components

confirm-Says :
    (round : Round) (name : String) (nodes : List NodeStatus) (c : Cluster) (s : NodeStatus)
    → (confirm round.get_status name nodes c).1 ≡ some s
    → Says round name nodes s
unfolding confirm
confirm-Says round name [] c s e = ground (arith, e)
confirm-Says round name (n ∷ nodes) c s e = elim (Option-cases (round.get_status n)) [
  | inl x ↦
      let (node, m, asked, has) = confirm-Says round name nodes c s (ground (arith, x, e)) in
      (node, Memᴰ.tail m, asked, has)
  | inr (status, x) ↦ elim (Bool-cases (is_started name status.running_components)) [
    | inl up ↦
        let same : status ≡ s = ground (arith, x, up, e) in
        (
          n,
          Memᴰ.head refl,
          subst (λ t. round.get_status n ≡ some t) same x,
          subst (λ t. HasStarted name (NodeStatus.running_components t)) same
              (is_started-HasStarted name status.running_components up),
        )
    | inr down ↦
        let (node, m, asked, has) =
          confirm-Says round name nodes (set_node status c).0 s (ground (arith, x, down, e)) in
        (node, Memᴰ.tail m, asked, has)
  ]
]

pub confirm-IsConfirmed :
    (round : Round) (name : String) (c : Cluster) (s : NodeStatus)
    → (confirm round.get_status name (nodes_with_component name (get_nodes c)) c).1 ≡ some s
    → IsConfirmed name round c s
confirm-IsConfirmed round name c s e =
    let (node, m, asked, has) =
      confirm-Says round name (nodes_with_component name (get_nodes c)) c s e in
    let (known, container) = nodes_with_component-HasContainer name node (get_nodes c) m in
    (node, known, container, asked, has)
