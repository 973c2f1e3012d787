-- ===== src/Repair.antt =====
-- internal/state/review.go: the bounded repair of a published draft after a review.
pub mod Reserve
pub mod Publish
