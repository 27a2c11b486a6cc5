-- ===== src/Ray.antt =====
-- apps/ray-train: the gateway.
pub mod Base
pub mod Admit
pub mod NrpState
pub mod Nrp
pub mod Paths
pub mod Requested
pub mod Settings
pub mod Cluster
pub mod Reap
pub mod Accounts
pub mod Jobs
pub mod Existing
pub mod Start
