-- ===== src/Release.antt =====
-- internal/release/release.go: the outcome of a merge, from the checks of its commit.
pub mod Pulls
pub mod Checks
pub mod Evaluate
pub mod Record
pub mod Latest
pub mod Done
