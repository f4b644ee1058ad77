-- ===== src/Packed.antt =====
-- cmd/seekfs/packed_records.go: `PackedRecords`, the resident store of records by columns.
pub mod Search
pub mod SideTable
pub mod Bits
pub mod Record
pub mod Modes
pub mod Sizes
pub mod Parents
pub mod Times
pub mod Names
mod Runs
