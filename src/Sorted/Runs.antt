-- ===== src/Sorted/Runs.antt =====
-- cmd/seekfs/postings.go: the sorted slices at concrete numbers.
use seekfs.Common.{ℕ, ◌≡◌, List, [], ◌∷◌, arith}
use seekfs.Packed.Search.{Increasing}
use seekfs.Sorted.Defs.{intersect_sorted_ints, unique_sorted_ints}
use seekfs.Sorted.Intersect.{member, intersect_sorted_ints_lem}
use seekfs.Sorted.Unique.{Ascending, unique_sorted_ints_lem}

abbrev odd : List ℕ
odd = 1 ∷ 3 ∷ 5 ∷ []

abbrev low : List ℕ
low = 1 ∷ 2 ∷ 5 ∷ []

abbrev runs : List ℕ
runs = 2 ∷ 2 ∷ 4 ∷ []

odd-Increasing : Increasing odd
odd-Increasing = ((omega arith, (omega arith, tt)), ((omega arith, tt), (tt, tt)))

low-Increasing : Increasing low
low-Increasing = ((omega arith, (omega arith, tt)), ((omega arith, tt), (tt, tt)))

runs-Ascending : Ascending runs
runs-Ascending = ((omega arith, (omega arith, tt)), ((omega arith, tt), (tt, tt)))

intersect_sorted_ints_lem_example : intersect_sorted_ints odd low ≡ (1 ∷ 5 ∷ [])
intersect_sorted_ints_lem_example = intersect_sorted_ints_lem odd low odd-Increasing low-Increasing

unique_sorted_ints_lem_example :
    Increasing (unique_sorted_ints runs)
    × ((z : ℕ) → member z (unique_sorted_ints runs) ≡ member z runs)
unique_sorted_ints_lem_example = unique_sorted_ints_lem runs runs-Ascending
