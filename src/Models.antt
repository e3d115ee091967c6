-- ===== src/Models.antt =====
-- Package internal/models: the checks of what operators enter.
pub mod Settings
