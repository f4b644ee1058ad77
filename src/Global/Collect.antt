-- ===== src/Global/Collect.antt =====
-- cmd/seekfs/global_rank.go: the loops that run one or two iterators to a slice of ids.
pub mod Defs
pub mod Laws
pub mod Union
