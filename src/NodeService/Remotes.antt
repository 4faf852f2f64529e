-- ===== src/NodeService/Remotes.antt =====
-- The containers of the other nodes, from which the routers learn where to send requests:
-- toRemoteCountsByComponent and OnClusterUpdated of pkg/maelstrom/node_svc.go.
pub mod Counts
pub mod Loops
pub mod Updated
mod Examples
use maelstrom.Prelude.{
  ℕ, zero, suc, ◌+◌, ◌*◌, ◌≡◌, String, Bool, true, false, ◌&&◌, not, Option, none, some, List, [],
  ◌∷◌, Keyed, lookup, insert, delete, ◌=s=◌, ◌==◌, if◌then◌else◌,
}
use maelstrom.Prelude.Int.{ℤ, pos, pos_part, leb_ℤ}
use maelstrom.V1.{Component, ComponentInfo, NodeStatus, component_status_active}
use maelstrom.Db.Rows.{DbResult, ok, err}

-- `map[string]int` from the URL of a node, and a map of those from the component's name.
abbrev pub UrlCounts : Type 0
UrlCounts = Keyed ℕ

abbrev pub count_of : String → UrlCounts → ℕ
count_of url counts = elim (lookup url counts) [ none ↦ 0 | some n ↦ n ]

abbrev counts_of : String → Keyed UrlCounts → UrlCounts
counts_of name m = elim (lookup name m) [ none ↦ [] | some counts ↦ counts ]

pub add_infos : String → List ComponentInfo → Keyed UrlCounts → Keyed UrlCounts
add_infos url [] m = m
add_infos url (rc ∷ infos) m = add_infos url infos (
    if rc.status =s= component_status_active
    then insert rc.component_name
        (insert url (count_of url (counts_of rc.component_name m) + 1)
          (counts_of rc.component_name m))
        m
    else m)

pub add_remote_nodes : String → List NodeStatus → Keyed UrlCounts → Keyed UrlCounts
unfolding add_infos
add_remote_nodes my_node_id [] m = m
add_remote_nodes my_node_id (node ∷ nodes) m =
    add_remote_nodes my_node_id nodes
      (if node.node_id =s= my_node_id then m else add_infos node.peer_url node.running_components m)

pub to_remote_counts_by_component : List NodeStatus → String → Keyed UrlCounts
unfolding add_remote_nodes
to_remote_counts_by_component nodes my_node_id = add_remote_nodes my_node_id nodes []

-- `reflect.DeepEqual` of two maps.
within : UrlCounts → UrlCounts → Bool
within [] b = true
within ((url, n) ∷ a) b =
    let rest = within a b in elim (lookup url b) [ none ↦ false | some m ↦ n == m && rest ]

pub same_counts : UrlCounts → UrlCounts → Bool
unfolding within
same_counts a b = within a b && within b a

-- The counts that the node last gave its routers, in instances, and what SetRemoteHandlerCounts of each
-- router was last called with, in handlers.
pub record Routing : Type 0 where
  pub instance_counts : Keyed UrlCounts
  pub handler_counts : Keyed UrlCounts

pub scaled_counts : ℕ → UrlCounts → UrlCounts
scaled_counts max_concur [] = []
scaled_counts max_concur ((url, n) ∷ counts) =
    (url, n * max_concur) ∷ scaled_counts max_concur counts

pub max_concur_of : Component → ℕ
max_concur_of c = if leb_ℤ c.max_concurrency (pos 0) then 1 else pos_part c.max_concurrency

pub give_counts : String → UrlCounts → DbResult Component → Routing → Routing
unfolding scaled_counts max_concur_of
give_counts name counts (err e) r = r
give_counts name counts (ok c) r = record {
  instance_counts = insert name counts r.instance_counts;
  handler_counts = insert name (scaled_counts (max_concur_of c) counts) r.handler_counts;
}

-- A component that was given none is compared with the nil map.
pub is_given : UrlCounts → Option UrlCounts → Bool
unfolding same_counts
is_given counts none = false
is_given counts (some given) = same_counts counts given

-- `get` is `GetComponent` of the database.
pub give_all : (String → DbResult Component) → Keyed UrlCounts → Routing → Routing
unfolding give_counts is_given
give_all get [] r = r
give_all get ((name, counts) ∷ remote) r = give_all get remote (
    if is_given counts (lookup name r.instance_counts)
    then r
    else give_counts name counts (get name) r)

-- The components that no other node runs any more, of those given before.
pub take_back : Keyed UrlCounts → Keyed UrlCounts → Routing → Routing
take_back remote [] r = r
take_back remote ((name, counts) ∷ given) r = take_back remote given (elim (lookup name remote) [
  | some c ↦ r
  | none ↦ record {
    instance_counts = delete name r.instance_counts;
    handler_counts = insert name [] r.handler_counts;
  }
])

pub on_cluster_updated :
    (String → DbResult Component) → List NodeStatus → String → Routing → Routing
unfolding give_all take_back
on_cluster_updated get nodes my_node_id r =
    let remote = to_remote_counts_by_component nodes my_node_id in
    let given = give_all get remote r in take_back remote given.instance_counts given
