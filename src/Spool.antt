-- ===== src/Spool.antt =====
-- cmd/seekfs/direct_spool.go: the records that the direct builder spills to temporary files.
pub mod Words
pub mod Codec
pub mod Laws
pub mod Order
pub mod Cut
mod Runs
