-- ===== src/Packed/Sizes.antt =====
-- cmd/seekfs/packed_records.go: `sizeAt`, `setSize`, `modUnixAt` and `setModUnix`. A size is stored in
-- 32 bits, or, behind a sentinel, in the side table of 64-bit sizes.
use seekfs.Common.{
  ℕ, ℤ, pos, negsuc, is_zero, ◌-◌, ◌&&◌, ◌^◌, ◌<◌, ◌≤◌, ◌≡◌, refl, ap, ◌∙◌, Bool, Bool-cases, true,
  false, inl, inr, Option, none, some, List, length, get_or, set, replicate, get_or-set,
  get_or-replicate, length-set, arith, ltb, leb, ◌==◌, ==_iff, if◌then◌else◌,
}
use seekfs.Packed.Record.{PackedRecords, len, uint32}
use seekfs.Packed.Modes.{wrap_apart}
use seekfs.Packed.SideTable.Defs.{lookup, upsert}
use seekfs.Packed.SideTable.Entries.{IsValid}
use seekfs.Packed.SideTable.Laws.{lookup-upsert, upsert-IsValid}

-- `packedSize64Sentinel`
abbrev pub packed_size64_sentinel : ℕ
packed_size64_sentinel = 2 ^ 32 - 1

-- A 32-bit column, which may be missing, and its default.
abbrev cell : Option (List ℕ) → ℕ → ℕ
cell none i = 0
cell (some column) i = get_or column i 0

abbrev or_zero : Option ℤ → ℤ
or_zero none = pos 0
or_zero (some v) = v

abbrev read_size : ℕ → Option ℤ → ℤ
read_size value extra = if value == packed_size64_sentinel then or_zero extra else pos value

unfoldable pub size_at : PackedRecords → ℕ → ℤ
size_at p i = read_size (cell p.size32 i) (lookup (uint32 i) p.size64)

-- The column, made of zeros where it is missing.
abbrev pub made : {A : Type 0} → A → ℕ → Option (List A) → List A
made zero n none = replicate n zero
made zero n (some column) = column

-- `value >= 0 && value < int64(packedSize64Sentinel)`, with the value that is stored.
abbrev pub small_size : ℤ → Option ℕ
small_size (negsuc n) = none
small_size (pos n) = if ltb n packed_size64_sentinel then some n else none

abbrev pub is_missing : {A : Type 0} → Option A → Bool
is_missing none = true
is_missing (some a) = false

unfoldable pub store_size : PackedRecords → ℕ → List ℕ → ℤ → PackedRecords
store_size p i column value = elim (small_size value) [
  | some n ↦ record p { size32 = some (set column i n) }
  | none ↦ record p {
    size32 = some (set column i packed_size64_sentinel);
    size64 = upsert (uint32 i) value p.size64;
  }
]

unfoldable pub set_size : PackedRecords → ℕ → ℤ → PackedRecords
unfolding store_size
set_size p i value =
    if leb (len p) i
    then p
    else if is_missing p.size32 && is_zero value
    then p
    else store_size p i (made 0 (len p) p.size32) value

-- The size columns of a store: the 32-bit column, where there is one, has one place a record.
pub record SizesValid (p : PackedRecords) : Type 0 where
  pub column : length (made 0 (len p) p.size32) ≡ len p
  pub table : IsValid p.size64

cell-made : (c : Option (List ℕ)) (n k : ℕ) → get_or (made 0 n c) k 0 ≡ cell c k
cell-made none n k = get_or-replicate n 0 k
cell-made (some c) n k = refl

module _ (p : PackedRecords) (v : SizesValid p) (i : ℕ) (hi : i < len p) (hl : len p ≤ 2 ^ 32) where
  stored :
      (n k : ℕ)
      → get_or (set (made 0 (len p) p.size32) i n) k 0 ≡ (if k == i then n else cell p.size32 k)
  stored n k =
      rw (get_or-set (made 0 (len p) p.size32) i n k 0, cell-made) (ground (arith, v.column, hi))

  store_small :
      (n k : ℕ)
      → n < packed_size64_sentinel
      → k < len p
      → size_at (record p { size32 = some (set (made 0 (len p) p.size32) i n) }) k
        ≡ (if k == i then pos n else size_at p k)
  unfolding size_at
  store_small n k h hk = rw (stored n k) (ground arith)

  store_large :
      (value : ℤ) (k : ℕ)
      → k < len p
      → size_at
          (record p {
            size32 = some (set (made 0 (len p) p.size32) i packed_size64_sentinel);
            size64 = upsert (uint32 i) value p.size64;
          })
          k
        ≡ (if k == i then value else size_at p k)
  unfolding size_at
  store_large value k hk =
      rw
        (
          stored packed_size64_sentinel k,
          lookup-upsert (uint32 k) (uint32 i) value p.size64 v.table,
          wrap_apart k i (omega arith) (omega arith),
        )
        (elim (Bool-cases (k == i)) [ inl y ↦ rw y refl | inr n ↦ rw n refl ])

  size_at-store_size :
      (value : ℤ) (k : ℕ)
      → k < len p
      → size_at (store_size p i (made 0 (len p) p.size32) value) k
        ≡ (if k == i then value else size_at p k)
  unfolding store_size
  size_at-store_size (negsuc n) k hk = store_large (negsuc n) k hk
  size_at-store_size (pos n) k hk = elim (Bool-cases (ltb n packed_size64_sentinel)) [
    | inl s ↦ rw (store_size, s) (store_small n k (ground (arith, s)) hk)
    | inr s ↦ rw (store_size, s) (store_large (pos n) k hk)
  ]

pub zero_value : (value : ℤ) → is_zero value ≡ true → value ≡ pos 0
zero_value (pos n) h = ap pos ((==_iff n 0).0 h)
zero_value (negsuc n) h = absurd (ground (arith, h))

cell_missing : (c : Option (List ℕ)) (k : ℕ) → is_missing c ≡ true → cell c k ≡ 0
cell_missing none k h = refl
cell_missing (some c) k h = absurd (ground (arith, h))

missing_zero : (p : PackedRecords) (k : ℕ) → is_missing p.size32 ≡ true → size_at p k ≡ pos 0
unfolding size_at
missing_zero p k h = rw (cell_missing p.size32 k h) refl

-- Setting the size of a record is what reading it gives, whether the size fits 32 bits or not, and no
-- other record's size changes; the columns are valid and ids fit 32 bits.
pub size_at-set_size :
    (p : PackedRecords) (i : ℕ) (value : ℤ) (k : ℕ)
    → SizesValid p
    → i < len p
    → len p ≤ 2 ^ 32
    → k < len p
    → size_at (set_size p i value) k ≡ (if k == i then value else size_at p k)
unfolding set_size
size_at-set_size p i value k v hi hl hk =
    let e : leb (len p) i ≡ false = ground arith in
    elim (Bool-cases (is_missing p.size32 && is_zero value)) [
      | inr c ↦ rw (e, c) (size_at-store_size p v i hi hl value k hk)
      | inl c ↦
          let m : is_missing p.size32 ≡ true = ground (arith, c) in
          let z : is_zero value ≡ true = ground (arith, c) in
          rw (e, c, missing_zero p k m, zero_value value z)
            (elim (Bool-cases (k == i)) [ inl y ↦ rw y refl | inr n ↦ rw n refl ])
    ]

length-stored :
    (p : PackedRecords) (i n : ℕ)
    → SizesValid p
    → length (set (made 0 (len p) p.size32) i n) ≡ len p
length-stored p i n v = length-set (made 0 (len p) p.size32) i n ∙ v.column

store_size-SizesValid :
    (p : PackedRecords) (i : ℕ) (value : ℤ)
    → SizesValid p
    → SizesValid (store_size p i (made 0 (len p) p.size32) value)
unfolding store_size
store_size-SizesValid p i value v =
    elim (small_size value)
      as (λ s. SizesValid (elim s [
        | some n ↦ record p { size32 = some (set (made 0 (len p) p.size32) i n) }
        | none ↦ record p {
          size32 = some (set (made 0 (len p) p.size32) i packed_size64_sentinel);
          size64 = upsert (uint32 i) value p.size64;
        }
      ])) [
        | some n ↦ record { column = length-stored p i n v; table = v.table }
        | none ↦ record {
          column = length-stored p i packed_size64_sentinel v;
          table = upsert-IsValid (uint32 i) value p.size64 v.table;
        }
      ]

-- The size columns stay valid.
pub set_size-SizesValid :
    (p : PackedRecords) (i : ℕ) (value : ℤ) → SizesValid p → SizesValid (set_size p i value)
unfolding set_size
set_size-SizesValid p i value v = elim (Bool-cases (leb (len p) i)) [
  | inl e ↦ rw e v
  | inr e ↦ elim (Bool-cases (is_missing p.size32 && is_zero value)) [
    | inl c ↦ rw (e, c) v
    | inr c ↦ rw (e, c) (store_size-SizesValid p i value v)
  ]
]
