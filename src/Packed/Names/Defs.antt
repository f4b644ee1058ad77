-- ===== src/Packed/Names/Defs.antt =====
-- cmd/seekfs/packed_records.go: `nameAt`, `setName`, `lowerNameAt` and `setLowerName`. A name is a list
-- of bytes. `strings.ToLower` is the parameter `to_lower`.
use seekfs.Common.{
  ℕ, ◌+◌, ◌-◌, ◌^◌, Bool, true, false, ◌&&◌, List, [], ◌∷◌, ◌++◌, length, get_or, set, take, drop,
  ltb, leb, ◌==◌, if◌then◌else◌,
}
use seekfs.Packed.Record.{PackedRecords, uint16, uint32}

abbrev pub bytes_eq : List ℕ → List ℕ → Bool
bytes_eq [] [] = true
bytes_eq [] (y ∷ ys) = false
bytes_eq (x ∷ xs) [] = false
bytes_eq (x ∷ xs) (y ∷ ys) = x == y && bytes_eq xs ys

-- `blob[off:off+length]`
abbrev pub span : ℕ → ℕ → List ℕ → List ℕ
span off n blob = take n (drop off blob)

unfoldable pub cut : ℕ → List ℕ → List ℕ
cut limit name = if ltb limit (length name) then take limit name else name

-- `name[:int(^uint16(0))]` where the name is longer.
unfoldable pub clipped : List ℕ → List ℕ
unfolding cut
clipped name = cut (2 ^ 16 - 1) name

unfoldable pub name_at : PackedRecords → ℕ → List ℕ
name_at p i =
    if leb (length p.name_offs) i
    then []
    else let off = get_or p.name_offs i 0 in
      let n = get_or p.name_lens i 0 in
      if ltb (length p.name_blob) (off + n) then [] else span off n p.name_blob

unfoldable pub set_name : PackedRecords → ℕ → List ℕ → PackedRecords
unfolding clipped cut
set_name p i name =
    if leb (length p.name_offs) i
    then p
    else let bytes = clipped name in
      record p {
        name_offs = set p.name_offs i (uint32 (length p.name_blob));
        name_lens = set p.name_lens i (uint16 (length bytes));
        name_blob = p.name_blob ++ bytes;
      }

-- `packedLowerSameAsName`
abbrev pub packed_lower_same_as_name : ℕ
packed_lower_same_as_name = 2 ^ 32 - 1

module _ (to_lower : List ℕ → List ℕ) where
  -- What stands at an offset of the lowercase blob; the length is `NameLens[i]`, that of the name.
  unfoldable pub read_lower : PackedRecords → ℕ → ℕ → List ℕ
  read_lower p i off =
      if off == packed_lower_same_as_name
      then name_at p i
      else let n = get_or p.name_lens i 0 in
        if ltb (length p.lower_blob) (off + n)
        then to_lower (name_at p i)
        else span off n p.lower_blob

  unfoldable pub lower_name_at : PackedRecords → ℕ → List ℕ
  lower_name_at p i =
      if leb (length p.lower_offs) i then [] else read_lower p i (get_or p.lower_offs i 0)

  unfoldable pub set_lower_name : PackedRecords → ℕ → List ℕ → PackedRecords
  unfolding clipped cut
  set_lower_name p i name =
      if leb (length p.lower_offs) i
      then p
      else let lower = clipped (to_lower name) in
        if bytes_eq lower name
        then record p { lower_offs = set p.lower_offs i packed_lower_same_as_name }
        else record p {
          lower_offs = set p.lower_offs i (uint32 (length p.lower_blob));
          lower_blob = p.lower_blob ++ lower;
        }
