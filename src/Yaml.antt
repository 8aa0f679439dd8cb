-- ===== src/Yaml.antt =====
-- The manifest editor: frontend/src/application/services/resourceYaml.
pub mod Diff
pub mod Value
pub mod Apply
