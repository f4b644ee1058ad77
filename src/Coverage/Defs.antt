-- ===== src/Coverage/Defs.antt =====
-- cmd/seekfs/postings.go: `mergeComponentCoverageIntervals` and `subtractComponentCoverageIntervals`. An
-- interval has its start and not its end. The merge writes `merged` over the places of `intervals` that
-- it has read, never ahead of them: what is read is the sorted slice, and the last of `merged`, which
-- alone still changes, is an argument of its own.
use seekfs.Common.{ℕ, Bool, List, [], ◌∷◌, ◌++◌, length, ltb, leb, ◌==◌, if◌then◌else◌}

pub record CoverageInterval : Type 0 where
  pub start : ℕ
  pub end : ℕ

abbrev pub between : ℕ → ℕ → CoverageInterval
between s e = record { start = s; end = e }

-- The order of `sort.Slice`: by start, the longest first.
abbrev pub precedes : CoverageInterval → CoverageInterval → Bool
precedes a b = if a.start == b.start then ltb b.end a.end else ltb a.start b.start

abbrev pub insert : CoverageInterval → List CoverageInterval → List CoverageInterval
insert a [] = a ∷ []
insert a (b ∷ bs) = if precedes b a then b ∷ insert a bs else a ∷ b ∷ bs

-- `sort.Slice`: intervals that neither precedes are equal, so every sort gives this list.
abbrev pub sorted : List CoverageInterval → List CoverageInterval
sorted [] = []
sorted (a ∷ rest) = insert a (sorted rest)

unfoldable pub merge_loop : CoverageInterval → List CoverageInterval → List CoverageInterval
merge_loop last [] = last ∷ []
merge_loop last (current ∷ rest) =
    let fresh = merge_loop current rest in
    let longer = merge_loop (between last.start current.end) rest in
    let same = merge_loop last rest in
    if ltb last.end current.start
    then last ∷ fresh
    else if ltb last.end current.end
    then longer
    else same

abbrev pub merge_sorted : List CoverageInterval → List CoverageInterval
merge_sorted [] = []
merge_sorted (current ∷ rest) = merge_loop current rest

unfoldable pub merge_component_coverage_intervals : List CoverageInterval → List CoverageInterval
unfolding merge_loop
merge_component_coverage_intervals intervals =
    if ltb (length intervals) 2 then intervals else merge_sorted (sorted intervals)

-- After the inner loop: what is left of `current`.
abbrev pub left_over : ℕ → ℕ → List CoverageInterval
left_over s e = if ltb s e then between s e ∷ [] else []

abbrev pub smaller : ℕ → ℕ → ℕ
smaller a b = if ltb b a then b else a

-- The inner loop, with `start` and `current.end`. Past the two tests `existing.end` is above `start`.
unfoldable pub subtract_one : ℕ → ℕ → List CoverageInterval → List CoverageInterval
subtract_one s e [] = left_over s e
subtract_one s e (existing ∷ covered) =
    let skip = subtract_one s e covered in
    let next = if ltb s existing.end then existing.end else s in
    let more = subtract_one next e covered in
    if leb existing.end s
    then skip
    else if leb e existing.start
    then left_over s e
    else (if ltb s existing.start then between s (smaller existing.start e) ∷ [] else [])
      ++ (if leb e next then left_over next e else more)

unfoldable pub subtract_each : List CoverageInterval → List CoverageInterval → List CoverageInterval
unfolding subtract_one
subtract_each [] covered = []
subtract_each (current ∷ incoming) covered =
    subtract_one current.start current.end covered ++ subtract_each incoming covered

unfoldable pub subtract_component_coverage_intervals :
    List CoverageInterval → List CoverageInterval → List CoverageInterval
unfolding subtract_each
subtract_component_coverage_intervals [] covered = []
subtract_component_coverage_intervals (current ∷ incoming) [] = current ∷ incoming
subtract_component_coverage_intervals (current ∷ incoming) (c ∷ covered) =
    subtract_each (current ∷ incoming) (c ∷ covered)
