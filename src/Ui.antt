-- ===== src/Ui.antt =====
-- Small stateful parts of the user interface: frontend/src/components/common and the toasts.
pub mod Flash
pub mod Toast
pub mod Age
pub mod RouteQuery
