-- ===== src/Logs.antt =====
-- Pod logs: frontend/src/application/services/podLogs and frontend/src/components/logs.
pub mod Buffer
pub mod Layout
pub mod Session
pub mod Ansi
