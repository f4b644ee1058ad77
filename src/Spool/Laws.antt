-- ===== src/Spool/Laws.antt =====
-- cmd/seekfs/direct_spool.go: the round trip of the codec.
use seekfs.Common.{
  ℕ, ◌-◌, ◌^◌, ◌<◌, ◌≡◌, refl, ◌∙◌, Bool-cases, false, ◌||◌, inl, inr, List, [], ◌∷◌, ◌++◌, length,
  ltb, if◌then◌else◌, arith,
}
use mathlib.Core.List.{append_assoc}
use seekfs.Spool.Words.{uint-put_uint, to_uint64, Int64, to_int64-to_uint64, to_uint64_bound}
use seekfs.Spool.Codec.{
  DirectRecord, ok, error, too_large, header, write_direct_spool_record, fill, read_full, field,
  decoded, then_read, read_path, read_name, read_direct_spool_record,
}

fill_all : (xs rest : List ℕ) → fill (length xs) (xs ++ rest) ≡ ok (xs, rest)
unfolding fill
fill_all [] rest = refl
fill_all (x ∷ xs) rest = rw (fill_all xs rest) refl

pub read_full_all : (xs rest : List ℕ) → read_full (length xs) (xs ++ rest) ≡ ok (xs, rest)
unfolding read_full fill
read_full_all [] rest = refl
read_full_all (x ∷ xs) rest = rw (fill_all xs rest) refl

-- The fields are in the ranges of their types.
pub record Fits (rec : DirectRecord) : Type 0 where
  pub frn : rec.frn < 2 ^ 64
  pub parent_frn : rec.parent_frn < 2 ^ 64
  pub mode : rec.mode < 2 ^ 32
  pub size : Int64 rec.size
  pub mod_unix : Int64 rec.mod_unix

module _ (rec : DirectRecord) (f : Fits rec) (n : length rec.name < 2 ^ 32)
    (p : length rec.path < 2 ^ 32) where
  pub name_field : field 36 4 (header rec) ≡ length rec.name
  unfolding header
  name_field = uint-put_uint 4 (length rec.name) (omega (arith, n))

  pub path_field : field 40 4 (header rec) ≡ length rec.path
  unfolding header
  path_field = uint-put_uint 4 (length rec.path) (omega (arith, p))

  decoded-header : decoded (header rec) rec.name rec.path ≡ rec
  unfolding header
  decoded-header =
      rw
        (
          uint-put_uint 8 rec.frn (omega (arith, f.frn)),
          uint-put_uint 8 rec.parent_frn (omega (arith, f.parent_frn)),
          uint-put_uint 4 rec.mode (omega (arith, f.mode)),
          uint-put_uint 8 (to_uint64 rec.size) (to_uint64_bound rec.size f.size),
          uint-put_uint 8 (to_uint64 rec.mod_unix) (to_uint64_bound rec.mod_unix f.mod_unix),
          to_int64-to_uint64 rec.size f.size,
          to_int64-to_uint64 rec.mod_unix f.mod_unix,
        )
        refl

  pub header_read : (rest : List ℕ) → read_full 44 (header rec ++ rest) ≡ ok (header rec, rest)
  unfolding header
  header_read rest = read_full_all (header rec) rest

  path_read : (rest : List ℕ) → read_path (header rec) (rec.name, rec.path ++ rest) ≡ ok (rec, rest)
  unfolding read_path then_read
  path_read rest =
      let small : ltb (2 ^ 63 - 1) (length rec.path) ≡ false = ground (arith, p) in
      rw (path_field, small, read_full_all rec.path rest, decoded-header) refl

  name_read :
      (rest : List ℕ) → read_name (header rec, rec.name ++ (rec.path ++ rest)) ≡ ok (rec, rest)
  unfolding read_name then_read
  name_read rest =
      let small : ltb (2 ^ 63 - 1) (length rec.name) ≡ false = ground (arith, n) in
      rw (name_field, small, read_full_all rec.name (rec.path ++ rest)) (path_read rest)

  read_written :
      (rest : List ℕ)
      → read_direct_spool_record (header rec ++ (rec.name ++ (rec.path ++ rest))) ≡ ok (rec, rest)
  unfolding read_direct_spool_record then_read
  read_written rest = rw (header_read (rec.name ++ (rec.path ++ rest))) (name_read rest)

-- What the writer gives for a record whose fields are in range reads back as the record, and leaves
-- what follows it; the writer gives nothing only where the name or the path has 2 ^ 32 bytes or more.
pub read-write :
    (rec : DirectRecord) (rest : List ℕ)
    → Fits rec
    → then_read (write_direct_spool_record rec) (λ bytes. read_direct_spool_record (bytes ++ rest))
      ≡ (if ltb (2 ^ 32 - 1) (length rec.name) || ltb (2 ^ 32 - 1) (length rec.path)
          then error too_large
          else ok (rec, rest))
unfolding then_read write_direct_spool_record
read-write rec rest f =
    elim (Bool-cases (ltb (2 ^ 32 - 1) (length rec.name) || ltb (2 ^ 32 - 1) (length rec.path))) [
      | inl y ↦ rw y refl
      | inr n ↦
          let flat : header rec ++ rec.name ++ rec.path ++ rest
              ≡ header rec ++ (rec.name ++ (rec.path ++ rest)) =
            append_assoc (header rec ++ rec.name) rec.path rest
            ∙ append_assoc (header rec) rec.name (rec.path ++ rest) in
          rw (n, flat) (read_written rec f (ground (arith, n)) (ground (arith, n)) rest)
    ]
