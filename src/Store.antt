-- ===== src/Store.antt =====
-- internal/state/store.go and the Store interface of state.go: snapshots and compare-and-swap.
pub mod Decimal
pub mod Interface
pub mod Memory
pub mod Revisions
