-- ===== src/Packed/Names/Laws.antt =====
-- cmd/seekfs/packed_records.go: what `nameAt` and `lowerNameAt` read back from the blobs.
use seekfs.Common.{
  ℕ, ◌+◌, ◌^◌, ◌≤◌, ◌<◌, ◌≡◌, sym, ◌∙◌, Bool-cases, false, inl, inr, List, ◌++◌, length, get_or,
  set, leb, ◌==◌, if◌then◌else◌, arith, length-append, length-set, get_or-set,
}
use seekfs.Packed.Record.{PackedRecords, len, uint16, uint32}
use seekfs.Packed.Names.Defs.{name_at, set_name, span, clipped}
use seekfs.Packed.Names.Blobs.{span-append, span_end, take_all, length-clipped}

-- The name columns have one place a record, and each name lies inside the blob.
pub record NamesValid (p : PackedRecords) : Type 0 where
  pub offs : length p.name_offs ≡ len p
  pub lens : length p.name_lens ≡ len p
  pub inside : (k : ℕ) → get_or p.name_offs k 0 + get_or p.name_lens k 0 ≤ length p.name_blob

-- A name that lies inside the blob is its span.
name_at-span :
    (p : PackedRecords) (k : ℕ)
    → k < length p.name_offs
    → get_or p.name_offs k 0 + get_or p.name_lens k 0 ≤ length p.name_blob
    → name_at p k ≡ span (get_or p.name_offs k 0) (get_or p.name_lens k 0) p.name_blob
unfolding name_at
name_at-span p k h inside = ground (arith, h, inside)

module _ (p : PackedRecords) (i : ℕ) (name : List ℕ) (v : NamesValid p) (hi : i < len p)
    (room : length p.name_blob < 2 ^ 32) where
  pub opened : leb (length p.name_offs) i ≡ false
  opened = ground (arith, v.offs, hi)

  off_after :
      (k : ℕ)
      → get_or (set p.name_offs i (uint32 (length p.name_blob))) k 0
        ≡ (if k == i then length p.name_blob else get_or p.name_offs k 0)
  off_after k =
      rw (get_or-set p.name_offs i (uint32 (length p.name_blob)) k 0)
        (ground (arith, v.offs, hi, room))

  pub len_after :
      (k : ℕ)
      → get_or (set p.name_lens i (uint16 (length (clipped name)))) k 0
        ≡ (if k == i then length (clipped name) else get_or p.name_lens k 0)
  len_after k =
      rw (get_or-set p.name_lens i (uint16 (length (clipped name))) k 0)
        (ground (arith, v.lens, hi, length-clipped name))

  -- Setting a name keeps every name inside the blob.
  pub set_name-NamesValid : NamesValid (set_name p i name)
  unfolding set_name
  set_name-NamesValid = rw opened (record {
    offs = length-set p.name_offs i (uint32 (length p.name_blob)) ∙ v.offs;
    lens = length-set p.name_lens i (uint16 (length (clipped name))) ∙ v.lens;
    inside = λ k.
        rw (off_after k, len_after k)
          (ground (arith, v.inside k, length-append p.name_blob (clipped name)));
  })

  span_after :
      (k : ℕ)
      → k < len p
      → span
          (if k == i then length p.name_blob else get_or p.name_offs k 0)
          (if k == i then length (clipped name) else get_or p.name_lens k 0)
          (p.name_blob ++ clipped name)
        ≡ (if k == i then clipped name else name_at p k)
  span_after k hk = elim (Bool-cases (k == i)) [
    | inl y ↦ rw y (
        span_end (length (clipped name)) p.name_blob (clipped name)
        ∙ take_all (length (clipped name)) (clipped name) (omega arith))
    | inr n ↦ rw n (
        span-append (get_or p.name_offs k 0) (get_or p.name_lens k 0) p.name_blob (clipped name)
          (v.inside k)
        ∙ sym (name_at-span p k (omega (arith, v.offs)) (v.inside k)))
  ]

  pub name_at-set_name_row :
      (k : ℕ)
      → k < len p
      → name_at (set_name p i name) k ≡ (if k == i then clipped name else name_at p k)
  unfolding set_name
  name_at-set_name_row k hk =
      let after = set_name-NamesValid in
      name_at-span (set_name p i name) k (rw (opened, length-set) (omega (arith, v.offs, hk)))
        (after.inside k)
      ∙ rw (opened, off_after k, len_after k) (span_after k hk)

-- Setting a name is what reading it gives, cut to 65,535 bytes, and no other record's name changes.
pub name_at-set_name :
    (p : PackedRecords) (i : ℕ) (name : List ℕ) (k : ℕ)
    → NamesValid p
    → length p.name_blob < 2 ^ 32
    → i < len p
    → k < len p
    → name_at (set_name p i name) k ≡ (if k == i then clipped name else name_at p k)
name_at-set_name p i name k v room hi hk = name_at-set_name_row p i name v hi room k hk
