-- ===== src/Trigram.antt =====
-- cmd/seekfs/trigram_index.go: the index of the grams of names.
pub mod Keys
pub mod KeyLaws
pub mod Index
pub mod Kept
pub mod KeyForms
pub mod Inside
pub mod Segment
pub mod Raw
pub mod Collected
pub mod Candidates
pub mod Complete
pub mod Runs
