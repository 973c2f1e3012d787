-- ===== src/System.antt =====
-- internal/state as a whole: every operation of the engine on one ledger.
pub mod Change
pub mod Moves
pub mod Repairs
pub mod Research
pub mod Tasks
pub mod Revision
pub mod TaskSteps
pub mod ResearchRuns
pub mod Posts
pub mod Usage
pub mod Wip
pub mod Limit
pub mod Full
pub mod Progress
pub mod Calls
pub mod Fences
pub mod Claims
pub mod Phases
pub mod Drafts
pub mod Grants
