-- ===== src/Fuzzy.antt =====
-- cmd/seekfs/fuzzy.go: the distance of a term and a name.
pub mod Distance
pub mod Alignment
pub mod Rows
pub mod Bounded
pub mod Window
pub mod Better
pub mod Best
pub mod Runs
