-- ===== src/Scenarios.antt =====
-- Concrete ledgers, and the theorems at concrete inputs.
mod Data
mod Ownership
mod Research
mod Commits
mod Boards
mod Decisions
mod Hosted
mod Merged
pub mod Drafted
