-- ===== src/Watch.antt =====
-- Live resource lists: frontend/src/application/services/resourceWatch.
pub mod Scope
pub mod Session
