-- ===== src/Discovery.antt =====
-- internal/state/discovery.go: the bounded research work on an issue, before its delivery.
pub mod Task
pub mod Work
pub mod Terms
pub mod Revise
pub mod Admit
