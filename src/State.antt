-- ===== src/State.antt =====
-- internal/state: the ledger of attempts, specifications, discovery work and board moves.
pub mod Clock
pub mod Records
pub mod Same
pub mod SameTask
pub mod Patterns
pub mod Valid
pub mod Validate
pub mod Facts
