-- ===== src/Packed/Record.antt =====
-- cmd/seekfs/types.go, cmd/seekfs/packed_records.go: the columns of `PackedRecords`. A receiver is not
-- nil. A slice whose nil is told from an empty one is an option; `ParentFRNExtras` nil is empty.
use seekfs.Common.{ℕ, ℤ, ◌%◌, ◌^◌, Bool, Option, List, length}
use seekfs.Packed.SideTable.Defs.{SideTable}

pub record PackedRecords : Type 0 where
  pub frns : List ℕ
  pub parent_frn_extras : List (ℕ × ℕ)
  pub parents : List ℤ
  pub name_offs : List ℕ
  pub name_lens : List ℕ
  pub lower_offs : List ℕ
  pub dir_bits : List ℕ
  pub mode_extra : SideTable ℕ
  pub size32 : Option (List ℕ)
  pub size64 : SideTable ℤ
  pub mod_unix : Option (List ℤ)
  pub deleted_bits : List ℕ
  pub name_blob : List ℕ
  pub lower_blob : List ℕ

pub record CompactRecord : Type 0 where
  pub frn : ℕ
  pub parent_frn : ℕ
  pub parent : ℤ
  pub name : List ℕ
  pub name_off : ℕ
  pub name_len : ℕ
  pub mode : ℕ
  pub size : ℤ
  pub modified : ℤ
  pub deleted : Bool

abbrev pub len : PackedRecords → ℕ
len p = length p.frns

-- `uint32(n)` and `uint16(n)`
abbrev pub uint32 : ℕ → ℕ
uint32 n = n % 2 ^ 32

abbrev pub uint16 : ℕ → ℕ
uint16 n = n % 2 ^ 16
