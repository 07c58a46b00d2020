-- ===== src/Cluster.antt =====
-- internal/cluster: the hash ring, membership, hinted handoff and the request coordinator.
pub mod Ring
pub mod Membership
pub mod Handoff
pub mod Replicator
pub mod Coordinator
pub mod AntiEntropy
pub mod Handlers
