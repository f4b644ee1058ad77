-- ===== src/Packed/Names.antt =====
-- cmd/seekfs/packed_records.go: names and lowercase names, kept as spans of two blobs.
pub mod Defs
pub mod Blobs
pub mod Laws
pub mod Lower
