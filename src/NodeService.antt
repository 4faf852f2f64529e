-- ===== src/NodeService.antt =====
-- The node service, pkg/maelstrom/node_svc.go: what a node tells of itself, how it learns of the others,
-- where components are placed, and the autoscaler.
pub mod Remotes
pub mod Status
pub mod Refresh
pub mod Targets
pub mod Place
pub mod Queue
pub mod Autoscale
pub mod Role
