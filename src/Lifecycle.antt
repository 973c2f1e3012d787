-- ===== src/Lifecycle.antt =====
-- internal/lifecycle/lifecycle.go: the decisions on slots, dependencies, gates and board stages.
pub mod Stages
pub mod Slots
pub mod Gates
pub mod Decide
pub mod Evidence
pub mod Planning
