-- ===== src/Reconcile.antt =====
-- internal/lifecycle/reconcile.go: the effects of one Project poll.
pub mod Input
pub mod Observed
pub mod Scan
pub mod Justified
pub mod Moves
pub mod Identity
pub mod Order
pub mod Items
