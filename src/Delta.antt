-- ===== src/Delta.antt =====
-- cmd/seekfs/trigram_index.go: posting lists stored as the differences of their ids.
pub mod Defs
pub mod Laws
mod Runs
