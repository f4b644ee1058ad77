-- ===== src/Global.antt =====
-- cmd/seekfs/global_iterators.go: the set operators over sorted record ids.
pub mod Id
pub mod Iterator
pub mod Slice
pub mod Filter
pub mod Sets
pub mod Union
pub mod UnionFrom
pub mod Optional
pub mod Buffered
pub mod Intersection
pub mod Exclusion
pub mod Merge
pub mod Collect
pub mod Operators
mod Runs
