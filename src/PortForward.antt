-- ===== src/PortForward.antt =====
-- Port forwards: frontend/src/application/services/portForward. A forward listens on a local port and is
-- checked against the cluster on a timer.
pub mod Target
pub mod Session
