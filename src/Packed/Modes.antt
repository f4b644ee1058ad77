-- ===== src/Packed/Modes.antt =====
-- cmd/seekfs/packed_records.go: `deletedAt`, `setDeleted`, `modeAt` and `setMode`.
use seekfs.Common.{
  ℕ, ◌^◌, ◌<◌, ◌≤◌, ◌≡◌, refl, Bool, Bool-cases, true, false, ◌||◌, inl, inr, Option, none, some,
  arith, leb, ◌==◌, ==_iff, if◌then◌else◌,
}
use seekfs.Packed.Record.{PackedRecords, len, uint32}
use seekfs.Packed.Bits.{bit_at, put_bit, bit_at-put_bit, test_bit}
use seekfs.Packed.SideTable.Defs.{lookup, upsert, remove}
use seekfs.Packed.SideTable.Entries.{IsValid}
use seekfs.Packed.SideTable.Laws.{lookup-upsert, lookup-remove, upsert-IsValid, remove-IsValid}

unfoldable pub deleted_at : PackedRecords → ℕ → Bool
deleted_at p i = bit_at p.deleted_bits i

unfoldable pub set_deleted : PackedRecords → ℕ → Bool → PackedRecords
set_deleted p i value =
    if leb (len p) i then p else record p { deleted_bits = put_bit p.deleted_bits i value }

-- `uint32(os.ModeDir)`
abbrev pub mode_dir : ℕ
mode_dir = 2 ^ 31

-- What the side table holds goes before the directory bit.
abbrev read_mode : Option ℕ → Bool → ℕ
read_mode none dir = if dir then mode_dir else 0
read_mode (some value) dir = value

unfoldable pub mode_at : PackedRecords → ℕ → ℕ
mode_at p i = read_mode (lookup (uint32 i) p.mode_extra) (bit_at p.dir_bits i)

unfoldable pub set_mode : PackedRecords → ℕ → ℕ → PackedRecords
set_mode p i mode =
    if leb (len p) i
    then p
    else let bits = put_bit p.dir_bits i (test_bit mode 31) in
      if mode == 0 || mode == mode_dir
      then record p { dir_bits = bits; mode_extra = remove (uint32 i) p.mode_extra }
      else record p { dir_bits = bits; mode_extra = upsert (uint32 i) mode p.mode_extra }

-- Marking one record, deleted or not, is what reading it gives, and no other record changes.
pub deleted_at-set_deleted :
    (p : PackedRecords) (i : ℕ) (value : Bool) (k : ℕ)
    → i < len p
    → deleted_at (set_deleted p i value) k ≡ (if k == i then value else deleted_at p k)
unfolding deleted_at set_deleted
deleted_at-set_deleted p i value k h = ground (arith, bit_at-put_bit p.deleted_bits i value k)

pub wrap_apart : (k i : ℕ) → k < 2 ^ 32 → i < 2 ^ 32 → (uint32 k == uint32 i) ≡ (k == i)
wrap_apart k i h e = ground arith

read_mode_if :
    (b : Bool) (v w : Option ℕ) (c d : Bool)
    → read_mode (if b then v else w) (if b then c else d)
      ≡ (if b then read_mode v c else read_mode w d)
read_mode_if true v w c d = refl
read_mode_if false v w c d = refl

plain_mode :
    (mode : ℕ) → (mode == 0 || mode == mode_dir) ≡ true → read_mode none (test_bit mode 31) ≡ mode
unfolding test_bit
plain_mode mode e = elim (Bool-cases (mode == 0)) [
  | inl z ↦ rw ((==_iff mode 0).0 z) refl
  | inr n ↦ rw ((==_iff mode mode_dir).0 (ground (arith, e, n))) refl
]

-- Setting the mode of a record is what reading it gives, and no other record's mode changes, where the
-- side table is sorted and ids fit 32 bits.
pub mode_at-set_mode :
    (p : PackedRecords) (i mode k : ℕ)
    → IsValid p.mode_extra
    → i < len p
    → len p ≤ 2 ^ 32
    → k < len p
    → mode_at (set_mode p i mode) k ≡ (if k == i then mode else mode_at p k)
unfolding mode_at set_mode
mode_at-set_mode p i mode k v hi hl hk =
    let e : leb (len p) i ≡ false = ground arith in
    elim (Bool-cases (mode == 0 || mode == mode_dir)) [
      | inl c ↦
          rw
            (
              e,
              c,
              lookup-remove (uint32 k) (uint32 i) p.mode_extra v,
              wrap_apart k i (omega (arith, hk, hl)) (omega (arith, hi, hl)),
              bit_at-put_bit,
              read_mode_if,
              plain_mode mode c,
            )
            refl
      | inr c ↦
          rw
            (
              e,
              c,
              lookup-upsert (uint32 k) (uint32 i) mode p.mode_extra v,
              wrap_apart k i (omega (arith, hk, hl)) (omega (arith, hi, hl)),
              bit_at-put_bit,
              read_mode_if,
            )
            refl
    ]

-- The side table of modes stays sorted and paired.
pub set_mode-IsValid :
    (p : PackedRecords) (i mode : ℕ) → IsValid p.mode_extra → IsValid (set_mode p i mode).mode_extra
unfolding set_mode
set_mode-IsValid p i mode v = elim (Bool-cases (leb (len p) i)) [
  | inl e ↦ rw e v
  | inr e ↦ elim (Bool-cases (mode == 0 || mode == mode_dir)) [
    | inl c ↦ rw (e, c) (remove-IsValid (uint32 i) p.mode_extra v)
    | inr c ↦ rw (e, c) (upsert-IsValid (uint32 i) mode p.mode_extra v)
  ]
]
