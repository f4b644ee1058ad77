-- ===== src/Packed/SideTable.antt =====
-- cmd/seekfs/packed_records.go: the sparse side tables of `PackedRecords`.
pub mod Defs
pub mod Entries
pub mod Order
pub mod Laws
