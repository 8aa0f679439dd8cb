-- ===== src/Cluster.antt =====
-- The cluster connections: how a failed request is classed, and the health that is shown.
pub mod Failure
pub mod Health
