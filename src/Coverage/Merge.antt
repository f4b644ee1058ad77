-- ===== src/Coverage/Merge.antt =====
-- cmd/seekfs/postings.go: `mergeComponentCoverageIntervals`.
use seekfs.Common.{
  ℕ, ◌≤◌, ◌<◌, ◌≡◌, refl, ◌∙◌, Bool-cases, true, false, inl, inr, List, [], ◌∷◌, length, All, ltb,
  arith,
}
use seekfs.Coverage.Defs.{
  CoverageInterval, between, precedes, insert, sorted, merge_loop, merge_sorted,
  merge_component_coverage_intervals,
}
use seekfs.Coverage.Laws.{covers, StartsAscend, raise, covers-merge_loop}

abbrev Follows : ℕ → List CoverageInterval → Type 0
Follows b [] = Unit {0}
Follows b (i ∷ is) = b < i.start

-- Each interval ends before the next one starts.
abbrev pub Separated : List CoverageInterval → Type 0
Separated [] = Unit {0}
Separated (i ∷ is) = Follows i.end is × Separated is

covers-insert :
    (x : ℕ) (a : CoverageInterval) (is : List CoverageInterval)
    → covers x (insert a is) ≡ covers x (a ∷ is)
covers-insert x a [] = refl
covers-insert x a (b ∷ is) = ground (arith, covers-insert x a is)

covers-sorted : (x : ℕ) (is : List CoverageInterval) → covers x (sorted is) ≡ covers x is
covers-sorted x [] = refl
covers-sorted x (i ∷ is) = rw (covers-insert x i (sorted is), covers-sorted x is) refl

All-insert :
    (b : ℕ) (a : CoverageInterval) (is : List CoverageInterval)
    → b ≤ a.start
    → All (λ j. b ≤ j.start) is
    → All (λ j. b ≤ j.start) (insert a is)
All-insert b a [] h r = (h, tt)
All-insert b a (i ∷ is) h r = elim (Bool-cases (precedes i a)) [
  | inl p ↦ rw p (r.0, All-insert b a is h r.1)
  | inr p ↦ rw p (h, r)
]

precedes_start : (a b : CoverageInterval) → precedes a b ≡ true → a.start ≤ b.start
precedes_start a b h = ground (arith, h)

not_precedes_start : (a b : CoverageInterval) → precedes a b ≡ false → b.start ≤ a.start
not_precedes_start a b h = ground (arith, h)

insert-StartsAscend :
    (a : CoverageInterval) (is : List CoverageInterval)
    → StartsAscend is
    → StartsAscend (insert a is)
insert-StartsAscend a [] h = (tt, tt)
insert-StartsAscend a (i ∷ is) h = elim (Bool-cases (precedes i a)) [
  | inl p ↦ rw p (All-insert i.start a is (precedes_start i a p) h.0, insert-StartsAscend a is h.1)
  | inr p ↦ let l = not_precedes_start i a p in rw p ((l, raise a.start i.start is l h.0), h)
]

sorted-StartsAscend : (is : List CoverageInterval) → StartsAscend (sorted is)
sorted-StartsAscend [] = tt
sorted-StartsAscend (i ∷ is) = insert-StartsAscend i (sorted is) (sorted-StartsAscend is)

merge_loop-Follows :
    (b : ℕ) (last : CoverageInterval) (rest : List CoverageInterval)
    → b < last.start
    → Follows b (merge_loop last rest)
unfolding merge_loop
merge_loop-Follows b last [] h = h
merge_loop-Follows b last (c ∷ rest) h = elim (Bool-cases (ltb last.end c.start)) [
  | inl p ↦ rw p h
  | inr p ↦ elim (Bool-cases (ltb last.end c.end)) [
    | inl q ↦ rw (p, q) (merge_loop-Follows b (between last.start c.end) rest h)
    | inr q ↦ rw (p, q) (merge_loop-Follows b last rest h)
  ]
]

merge_loop-Separated :
    (last : CoverageInterval) (rest : List CoverageInterval) → Separated (merge_loop last rest)
unfolding merge_loop
merge_loop-Separated last [] = (tt, tt)
merge_loop-Separated last (c ∷ rest) = elim (Bool-cases (ltb last.end c.start)) [
  | inl p ↦
      rw p (merge_loop-Follows last.end c rest (ground (arith, p)), merge_loop-Separated c rest)
  | inr p ↦ elim (Bool-cases (ltb last.end c.end)) [
    | inl q ↦ rw (p, q) (merge_loop-Separated (between last.start c.end) rest)
    | inr q ↦ rw (p, q) (merge_loop-Separated last rest)
  ]
]

merge_sorted_lem :
    (is : List CoverageInterval)
    → StartsAscend is
    → Separated (merge_sorted is) × ((x : ℕ) → covers x (merge_sorted is) ≡ covers x is)
merge_sorted_lem [] h = (tt, λ x. refl)
merge_sorted_lem (i ∷ is) h = (merge_loop-Separated i is, λ x. covers-merge_loop x i is h)

-- The merged intervals lie apart, each ending before the next one starts, and cover the records that the
-- given ones cover.
pub merge_component_coverage_intervals_lem :
    (is : List CoverageInterval)
    → Separated (merge_component_coverage_intervals is)
      × ((x : ℕ) → covers x (merge_component_coverage_intervals is) ≡ covers x is)
unfolding merge_component_coverage_intervals
merge_component_coverage_intervals_lem [] = (tt, λ x. refl)
merge_component_coverage_intervals_lem (i ∷ []) = ((tt, tt), λ x. refl)
merge_component_coverage_intervals_lem (i ∷ j ∷ is) =
    let e : ltb (length (i ∷ j ∷ is)) 2 ≡ false = ground arith in
    let m = merge_sorted_lem (sorted (i ∷ j ∷ is)) (sorted-StartsAscend (i ∷ j ∷ is)) in
    rw e (m.0, λ x. m.1 x ∙ covers-sorted x (i ∷ j ∷ is))
