-- ===== src/Terminal.antt =====
-- Terminals: frontend/src/application/services/terminal/models.
pub mod Scrollback
pub mod Session
