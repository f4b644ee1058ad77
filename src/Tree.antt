-- ===== src/Tree.antt =====
-- cmd/seekfs/index_format.go and service_state.go: the children of the records and the ranges of subtrees.
pub mod Ranges
pub mod Walked
pub mod Walks
pub mod Visits
pub mod Forest
pub mod Marked
pub mod Children
pub mod Counts
pub mod Filled
pub mod Built
pub mod Parents
pub mod Under
pub mod Whole
pub mod Runs
