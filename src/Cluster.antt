-- ===== src/Cluster.antt =====
-- server/cluster: how a node joins a cluster over HTTP, from the joining node's side.
pub mod Address
pub mod Join
pub mod Endings
pub mod Outcome
pub mod Listener
mod ListenerTests
mod Tests
