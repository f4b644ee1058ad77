-- ===== src/Global/Merge.antt =====
-- cmd/seekfs/global_iterators.go: `globalMergeIterator`.
pub mod Defs
pub mod Best
pub mod Laws
