-- ===== src/Global/Intersection.antt =====
-- cmd/seekfs/global_iterators.go: `globalIntersectionIterator`.
pub mod Defs
pub mod Laws
