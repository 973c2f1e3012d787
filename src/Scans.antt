-- ===== src/Scans.antt =====
-- The cursors of the recurring scans (internal/state/poll.go, revert_scan.go) and the choice of the
-- attempt that a scan reads (current.go).
pub mod Poll
pub mod Schedule
pub mod Revert
pub mod Current
pub mod Uniqueness
