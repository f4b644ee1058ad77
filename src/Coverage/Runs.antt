-- ===== src/Coverage/Runs.antt =====
-- cmd/seekfs/postings.go: intervals at concrete records.
use seekfs.Common.{ℕ, ◌≡◌, true, List, [], ◌∷◌, arith}
use seekfs.Coverage.Defs.{
  CoverageInterval, between, merge_component_coverage_intervals,
  subtract_component_coverage_intervals,
}
use seekfs.Coverage.Laws.{covers, covers-subtract}
use seekfs.Coverage.Merge.{Separated, merge_component_coverage_intervals_lem}

abbrev nested : List CoverageInterval
nested = between 5 9 ∷ between 1 4 ∷ between 6 7 ∷ []

abbrev block : List CoverageInterval
block = between 0 10 ∷ []

merge_component_coverage_intervals_lem_example :
    Separated (merge_component_coverage_intervals nested)
    × ((x : ℕ) → covers x (merge_component_coverage_intervals nested) ≡ covers x nested)
merge_component_coverage_intervals_lem_example = merge_component_coverage_intervals_lem nested

covers-subtract_example :
    covers 4 (subtract_component_coverage_intervals block (between 1 4 ∷ between 5 9 ∷ [])) ≡ true
covers-subtract_example =
    covers-subtract 4 block (between 1 4 ∷ between 5 9 ∷ []) ((omega arith, tt), (tt, tt))
