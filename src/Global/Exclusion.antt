-- ===== src/Global/Exclusion.antt =====
-- cmd/seekfs/global_iterators.go: `globalExclusionIterator`.
pub mod Defs
pub mod Laws
