-- ===== src/Spool/Codec.antt =====
-- cmd/seekfs/direct_spool.go: `writeDirectSpoolRecord` and `readDirectSpoolRecord`. The writer and the
-- reader do not fail of themselves: what is written is a list of bytes, what is read is one.
use seekfs.Common.{
  ℕ, zero, suc, ℤ, ◌-◌, ◌^◌, ◌||◌, List, [], ◌∷◌, ◌++◌, length, ltb, if◌then◌else◌, take, drop,
}
use seekfs.Spool.Words.{put_uint, uint, to_uint64, to_int64}

pub record DirectRecord : Type 0 where
  pub frn : ℕ
  pub parent_frn : ℕ
  pub mode : ℕ
  pub size : ℤ
  pub mod_unix : ℤ
  pub name : List ℕ
  pub path : List ℕ

pub data SpoolError : Type 0 where
  eof : SpoolError
  unexpected_eof : SpoolError
  too_large : SpoolError

pub data Result (A : Type 0) : Type 0 where
  ok : A → Result A
  error : SpoolError → Result A

-- `directSpoolHeaderBytes`
abbrev pub direct_spool_header_bytes : ℕ
direct_spool_header_bytes = 44

unfoldable pub header : DirectRecord → List ℕ
header rec =
    put_uint 8 rec.frn
    ++ put_uint 8 rec.parent_frn
    ++ put_uint 4 rec.mode
    ++ put_uint 8 (to_uint64 rec.size)
    ++ put_uint 8 (to_uint64 rec.mod_unix)
    ++ put_uint 4 (length rec.name)
    ++ put_uint 4 (length rec.path)

unfoldable pub write_direct_spool_record : DirectRecord → Result (List ℕ)
write_direct_spool_record rec =
    if ltb (2 ^ 32 - 1) (length rec.name) || ltb (2 ^ 32 - 1) (length rec.path)
    then error too_large
    else ok (header rec ++ rec.name ++ rec.path)

-- The bytes wanted, after those that were read, and the rest.
unfoldable pub fill : ℕ → List ℕ → Result (List ℕ × List ℕ)
fill zero input = ok ([], input)
fill (suc n) [] = error unexpected_eof
fill (suc n) (b ∷ input) =
    let rest = fill n input in elim rest [ ok r ↦ ok (b ∷ r.0, r.1) | error e ↦ error e ]

-- `io.ReadFull`: the end of the input before the first byte has an error of its own.
unfoldable pub read_full : ℕ → List ℕ → Result (List ℕ × List ℕ)
read_full zero input = ok ([], input)
read_full (suc n) [] = error eof
read_full (suc n) (b ∷ input) = fill (suc n) (b ∷ input)

-- `header[off:off+n]`
abbrev pub field : ℕ → ℕ → List ℕ → ℕ
field off n h = uint (take n (drop off h))

abbrev pub decoded : List ℕ → List ℕ → List ℕ → DirectRecord
decoded h name path = record {
  frn = field 0 8 h;
  parent_frn = field 8 8 h;
  mode = field 16 4 h;
  size = to_int64 (field 20 8 h);
  mod_unix = to_int64 (field 28 8 h);
  name = name;
  path = path;
}

unfoldable pub then_read : {A B : Type 0} → Result A → (A → Result B) → Result B
then_read (error e) k = error e
then_read (ok a) k = k a

unfoldable pub read_path : List ℕ → List ℕ × List ℕ → Result (DirectRecord × List ℕ)
read_path h (name, input) =
    if ltb (2 ^ 63 - 1) (field 40 4 h)
    then error too_large
    else then_read (read_full (field 40 4 h) input) (λ r. ok (decoded h name r.0, r.1))

unfoldable pub read_name : List ℕ × List ℕ → Result (DirectRecord × List ℕ)
read_name (h, input) =
    if ltb (2 ^ 63 - 1) (field 36 4 h)
    then error too_large
    else then_read (read_full (field 36 4 h) input) (read_path h)

unfoldable pub read_direct_spool_record : List ℕ → Result (DirectRecord × List ℕ)
read_direct_spool_record input = then_read (read_full direct_spool_header_bytes input) read_name
