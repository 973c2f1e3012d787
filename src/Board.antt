-- ===== src/Board.antt =====
-- internal/state/projection.go: the accepted status of every Project item, and its pending moves.
pub mod Projection
pub mod Moves
pub mod Intents
