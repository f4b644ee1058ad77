-- ===== src/Sorted.antt =====
-- cmd/seekfs/postings.go: operations on sorted slices that write over the slice they read.
pub mod Defs
pub mod Slices
pub mod Intersect
pub mod Unique
mod Runs
