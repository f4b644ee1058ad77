-- ===== src/Coverage.antt =====
-- cmd/seekfs/postings.go: the intervals of records that a component covers.
pub mod Defs
pub mod Laws
pub mod Merge
mod Runs
