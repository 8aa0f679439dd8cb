-- ===== src/Pod.antt =====
-- Pods: what the front end shows of one.
pub mod Environment
