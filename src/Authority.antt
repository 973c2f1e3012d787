-- ===== src/Authority.antt =====
-- internal/admission/admission.go: the grant of a delivery, from observed facts of an issue.
pub mod Grant
pub mod Libraries
pub mod Authorize
pub mod Kept
