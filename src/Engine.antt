-- ===== src/Engine.antt =====
-- internal/state/engine.go: the operations on attempts and the optimistic loop that commits them.
pub mod Outcome
pub mod Ownership
pub mod Work
pub mod Publish
pub mod Recovery
pub mod Admit
pub mod Admission
pub mod Calls
pub mod Changes
pub mod Phases
pub mod Budget
pub mod Update
pub mod Linear
pub mod Progress
pub mod Fences
pub mod Claims
