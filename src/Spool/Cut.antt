-- ===== src/Spool/Cut.antt =====
-- cmd/seekfs/direct_spool.go: `readDirectSpoolRecord` on a record that is cut. `directMergeRuns` takes the
-- error `io.EOF` as the end of a run, and any other as a failure.
use mathlib.Core.List.{append-nil}
use seekfs.Common.{
  ℕ, zero, suc, ◌-◌, ◌^◌, ◌<◌, ◌≡◌, refl, ap, sym, ◌∙◌, false, [], ◌++◌, length, ltb, arith,
}
use seekfs.Spool.Codec.{
  DirectRecord, ok, error, eof, header, read_full, then_read, read_path, read_name,
  read_direct_spool_record,
}
use seekfs.Spool.Laws.{Fits, read_full_all, name_field, path_field, header_read}

read_full_nothing : (n : ℕ) → 0 < n → read_full n [] ≡ error eof
unfolding read_full
read_full_nothing zero h = absurd (omega arith)
read_full_nothing (suc n) h = refl

module _ (rec : DirectRecord) (f : Fits rec) (n : length rec.name < 2 ^ 32)
    (p : length rec.path < 2 ^ 32) where
  cut_before_path : 0 < length rec.path → read_path (header rec) (rec.name, []) ≡ error eof
  unfolding read_path then_read
  cut_before_path h =
      let small : ltb (2 ^ 63 - 1) (length rec.path) ≡ false = ground (arith, p) in
      rw (path_field rec f n p, small, read_full_nothing (length rec.path) h) refl

  cut_behind_name : 0 < length rec.path → read_name (header rec, rec.name) ≡ error eof
  unfolding read_name then_read
  cut_behind_name h =
      let small : ltb (2 ^ 63 - 1) (length rec.name) ≡ false = ground (arith, n) in
      let whole : read_full (length rec.name) rec.name ≡ ok (rec.name, []) =
        ap (read_full (length rec.name)) (sym (append-nil rec.name)) ∙ read_full_all rec.name [] in
      rw (name_field rec f n p, small, whole) (cut_before_path h)

  cut_behind_header : 0 < length rec.name → read_name (header rec, []) ≡ error eof
  unfolding read_name then_read
  cut_behind_header h =
      let small : ltb (2 ^ 63 - 1) (length rec.name) ≡ false = ground (arith, n) in
      rw (name_field rec f n p, small, read_full_nothing (length rec.name) h) refl

-- A record that is cut right behind its header, where its name is not empty, and one that is cut right
-- behind its name, where its path is not empty, give the error that an input without bytes gives.
pub read_cut :
    (rec : DirectRecord)
    → Fits rec
    → length rec.name < 2 ^ 32
    → length rec.path < 2 ^ 32
    → 0 < length rec.name
    → 0 < length rec.path
    → read_direct_spool_record (header rec) ≡ read_direct_spool_record []
      × read_direct_spool_record (header rec ++ rec.name) ≡ read_direct_spool_record []
unfolding read_direct_spool_record then_read
read_cut rec f n p name path =
    let end : read_full 44 [] ≡ error eof = read_full_nothing 44 (omega arith) in
    let whole : read_full 44 (header rec) ≡ ok (header rec, []) =
      ap (read_full 44) (sym (append-nil (header rec))) ∙ header_read rec f n p [] in
    (
      rw (end, whole) (cut_behind_header rec f n p name),
      rw (end, header_read rec f n p rec.name) (cut_behind_name rec f n p path),
    )
