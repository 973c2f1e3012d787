-- ===== src/Feedback.antt =====
-- internal/review/review.go: the feedback of an owner on a published pull request.
pub mod Reviews
pub mod Evaluate
pub mod Bound
