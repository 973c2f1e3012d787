-- ===== src/Config.antt =====
-- internal/config/config.go: the configuration of a consumer.
pub mod Records
pub mod Paths
pub mod Validate
pub mod Scope
