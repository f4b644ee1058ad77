-- ===== src/Wal.antt =====
-- cmd/seekfs/service_state.go: the write-ahead log of journal changes.
pub mod Batch
pub mod Frames
pub mod Laws
pub mod Rewrite
pub mod Runs
