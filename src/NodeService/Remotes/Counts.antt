-- ===== src/NodeService/Remotes/Counts.antt =====
-- What toRemoteCountsByComponent counts, pkg/maelstrom/node_svc.go.
use maelstrom.Prelude.{
  ℕ, suc, ◌+◌, ◌≡◌, String, ◌&&◌, List, [], ◌∷◌, lookup, insert, lookup-insert, Keyed, ◌=s=◌,
  if◌then◌else◌, name_iff, arith,
}
use maelstrom.V1.{ComponentInfo, NodeStatus, component_status_active}
use maelstrom.NodeService.Remotes.{
  UrlCounts, count_of, counts_of, add_infos, add_remote_nodes, to_remote_counts_by_component,
}

-- The active containers of a component in a list, and on the other nodes with a URL.
abbrev pub active_in : String → List ComponentInfo → ℕ
active_in name [] = 0
active_in name (rc ∷ infos) =
    if rc.status =s= component_status_active && rc.component_name =s= name
    then suc (active_in name infos)
    else active_in name infos

abbrev pub active_at : String → String → String → List NodeStatus → ℕ
active_at my_node_id name url [] = 0
active_at my_node_id name url (node ∷ nodes) =
    if node.node_id =s= my_node_id
    then active_at my_node_id name url nodes
    else if node.peer_url =s= url
    then active_in name node.running_components + active_at my_node_id name url nodes
    else active_at my_node_id name url nodes

abbrev pub remote_count : String → String → Keyed UrlCounts → ℕ
remote_count name url m = count_of url (counts_of name m)

one_more :
    (url at name other : String) (m : Keyed UrlCounts)
    → remote_count name at
        (insert other (insert url (count_of url (counts_of other m) + 1) (counts_of other m)) m)
      ≡ (if other =s= name && url =s= at
          then suc (remote_count name at m)
          else remote_count name at m)
one_more url at name other m =
    let counts = insert url (count_of url (counts_of other m) + 1) (counts_of other m) in
    ground (
      arith,
      name_iff other name,
      name_iff url at,
      lookup-insert other name counts m,
      lookup-insert url at (count_of url (counts_of other m) + 1) (counts_of other m),
    )

abbrev found_in : String → String → String → List ComponentInfo → ℕ
found_in url at name infos = if url =s= at then active_in name infos else 0

add_infos-remote_count :
    (url at name : String) (infos : List ComponentInfo) (m : Keyed UrlCounts)
    → remote_count name at (add_infos url infos m)
      ≡ found_in url at name infos + remote_count name at m
unfolding add_infos
add_infos-remote_count url at name [] m = ground arith
add_infos-remote_count url at name (rc ∷ infos) m =
    let other = rc.component_name in
    let more =
      insert other (insert url (count_of url (counts_of other m) + 1) (counts_of other m)) m in
    ground (
      arith,
      one_more url at name other m,
      add_infos-remote_count url at name infos m,
      add_infos-remote_count url at name infos more,
    )

add_remote_nodes-remote_count :
    (my_node_id at name : String) (nodes : List NodeStatus) (m : Keyed UrlCounts)
    → remote_count name at (add_remote_nodes my_node_id nodes m)
      ≡ active_at my_node_id name at nodes + remote_count name at m
unfolding add_remote_nodes
add_remote_nodes-remote_count my_node_id at name [] m = omega arith
add_remote_nodes-remote_count my_node_id at name (node ∷ nodes) m = ground (
  arith,
  add_infos-remote_count node.peer_url at name node.running_components m,
  add_remote_nodes-remote_count my_node_id at name nodes m,
  add_remote_nodes-remote_count my_node_id at name nodes
      (add_infos node.peer_url node.running_components m),
)

-- For each component and URL the map holds the number of the component's active containers on the nodes
-- with that URL, this node left out.
pub to_remote_counts_exact :
    (nodes : List NodeStatus) (my_node_id name at : String)
    → remote_count name at (to_remote_counts_by_component nodes my_node_id)
      ≡ active_at my_node_id name at nodes
unfolding to_remote_counts_by_component lookup
to_remote_counts_exact nodes my_node_id name at =
    omega (arith, add_remote_nodes-remote_count my_node_id at name nodes [])
