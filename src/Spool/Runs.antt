-- ===== src/Spool/Runs.antt =====
-- cmd/seekfs/direct_spool.go: the codec at a concrete record.
use seekfs.Common.{pos, negsuc, ◌≡◌, ◌⊎◌, false, not, [], ◌∷◌, ◌++◌, arith}
use seekfs.Spool.Codec.{
  DirectRecord, ok, then_read, write_direct_spool_record, read_direct_spool_record, header,
}
use seekfs.Spool.Laws.{Fits, read-write}
use seekfs.Spool.Cut.{read_cut}
use seekfs.Spool.Order.{direct_record_less, direct_record_less_lem}

abbrev sample : DirectRecord
sample = record {
  frn = 1125899906842629;
  parent_frn = 5;
  mode = 438;
  size = pos 300;
  mod_unix = negsuc 9;
  name = 97 ∷ 98 ∷ [];
  path = 67 ∷ [];
}

sample-Fits : Fits sample
sample-Fits = record {
  frn = omega arith;
  parent_frn = omega arith;
  mode = omega arith;
  size = omega arith;
  mod_unix = omega arith;
}

read-write_example :
    then_read
      (write_direct_spool_record sample)
      (λ bytes. read_direct_spool_record (bytes ++ (1 ∷ 2 ∷ [])))
    ≡ ok (sample, 1 ∷ 2 ∷ [])
read-write_example = read-write sample (1 ∷ 2 ∷ []) sample-Fits

-- The sample under another name.
abbrev renamed : DirectRecord
renamed = record sample { name = 97 ∷ 99 ∷ [] }

direct_record_less_lem_example :
    (sample ≡ renamed
      × (direct_record_less sample renamed ≡ false × direct_record_less renamed sample ≡ false))
    ⊎ direct_record_less renamed sample ≡ not (direct_record_less sample renamed)
direct_record_less_lem_example = direct_record_less_lem sample renamed

read_cut_example :
    read_direct_spool_record (header sample) ≡ read_direct_spool_record []
    × read_direct_spool_record (header sample ++ sample.name) ≡ read_direct_spool_record []
read_cut_example =
    read_cut sample sample-Fits (omega arith) (omega arith) (omega arith) (omega arith)
