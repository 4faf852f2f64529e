-- ===== src/NodeService/Remotes/Examples.antt =====
-- Two nodes behind one URL and this node.
use maelstrom.Prelude.{◌≡◌, String, List, [], ◌∷◌, refl, some, lookup, arith}
use maelstrom.V1.{NodeStatus, Component}
use maelstrom.Db.Rows.{DbResult, ok}
use maelstrom.NodeService.Remotes.Updated.{InStep, Remembers, on_cluster_updated-InStep}
use maelstrom.NodeService.Remotes.{
  Routing, to_remote_counts_by_component, on_cluster_updated, scaled_counts,
}
use maelstrom.NodeService.Remotes.Counts.{remote_count, to_remote_counts_exact}
use maelstrom.Samples.{web, node_with, running}

abbrev nodes : List NodeStatus
nodes =
    node_with "a" (running "web" ∷ running "db" ∷ running "web" ∷ [])
    ∷ node_with "me" (running "web" ∷ [])
    ∷ node_with "b" (running "web" ∷ [])
    ∷ []

to_remote_counts_exact_example :
    remote_count "web" "http://" (to_remote_counts_by_component nodes "me") ≡ 3
to_remote_counts_exact_example = to_remote_counts_exact nodes "me" "web" "http://"

abbrev readable : String → DbResult Component
readable name = ok web

abbrev not_told : Routing
not_told = record {
  instance_counts = ("old", ("http://", 1) ∷ []) ∷ [];
  handler_counts = ("old", ("http://", 2) ∷ []) ∷ [];
}

on_cluster_updated-InStep_example :
    InStep
      (lookup "old" (on_cluster_updated readable nodes "me" not_told).instance_counts)
      (lookup "old" (on_cluster_updated readable nodes "me" not_told).handler_counts)
    × Remembers
        (ok web)
        (lookup "old" (to_remote_counts_by_component nodes "me"))
        (some (("http://", 1) ∷ []))
        (lookup "old" (on_cluster_updated readable nodes "me" not_told).instance_counts)
unfolding lookup scaled_counts
on_cluster_updated-InStep_example =
    on_cluster_updated-InStep readable nodes "me" not_told "old" (2, omega arith, refl)
