-- ===== src/Coverage/Laws.antt =====
-- cmd/seekfs/postings.go: the intervals as the sets of records that they cover.
use seekfs.Common.{
  ℕ, ◌≤◌, ◌<◌, ◌≡◌, refl, Bool, Bool-cases, true, false, ◌&&◌, ◌||◌, not, inl, inr, List, [], ◌∷◌,
  ◌++◌, All, ltb, leb, if◌then◌else◌, arith,
}
use seekfs.Coverage.Defs.{
  CoverageInterval, between, merge_loop, smaller, subtract_one, subtract_each,
  subtract_component_coverage_intervals,
}

abbrev pub covers : ℕ → List CoverageInterval → Bool
covers x [] = false
covers x (i ∷ is) = (leb i.start x && ltb x i.end) || covers x is

abbrev pub StartsAscend : List CoverageInterval → Type 0
StartsAscend [] = Unit {0}
StartsAscend (i ∷ is) = All (λ j. i.start ≤ j.start) is × StartsAscend is

covers-append :
    (x : ℕ) (is js : List CoverageInterval) → covers x (is ++ js) ≡ (covers x is || covers x js)
covers-append x [] js = refl
covers-append x (i ∷ is) js = ground (arith, covers-append x is js)

covers_above :
    (x b : ℕ) (is : List CoverageInterval) → All (λ j. b ≤ j.start) is → x < b → covers x is ≡ false
covers_above x b [] h l = refl
covers_above x b (i ∷ is) h l = ground (arith, covers_above x b is h.1 l, h.0)

pub raise :
    (b c : ℕ) (is : List CoverageInterval)
    → b ≤ c
    → All (λ j. c ≤ j.start) is
    → All (λ j. b ≤ j.start) is
raise b c [] h a = tt
raise b c (i ∷ is) h a = (omega (arith, h, a.0), raise b c is h a.1)

covers-piece :
    (x s e c : ℕ)
    → c < e
    → covers x (if ltb s c then between s (smaller c e) ∷ [] else []) ≡ (leb s x && ltb x c)
covers-piece x s e c h = ground (arith, h)

covers-subtract_one :
    (x s e : ℕ) (covered : List CoverageInterval)
    → StartsAscend covered
    → covers x (subtract_one s e covered) ≡ (leb s x && ltb x e && not (covers x covered))
unfolding subtract_one
covers-subtract_one x s e [] h = ground arith
covers-subtract_one x s e (c ∷ covered) h = elim (Bool-cases (leb c.end s)) [
  | inl p ↦ rw (p, covers-subtract_one x s e covered h.1) (ground (arith, p))
  | inr p ↦ elim (Bool-cases (leb e c.start)) [
    | inl q ↦ rw (p, q) (ground (arith, q, covers_above x e covered, raise e c.start covered))
    | inr q ↦
        let t : ltb s c.end ≡ true = ground (arith, p) in
        rw (p, q, t, covers-append, covers-piece x s e c.start (ground (arith, q)))
          (elim (Bool-cases (leb e c.end)) [
            | inl m ↦ rw m (ground (arith, m, p, q, covers_above x c.start covered h.0))
            | inr m ↦
                rw (m, covers-subtract_one x c.end e covered h.1)
                  (ground (arith, m, p, q, covers_above x c.start covered h.0))
          ])
  ]
]

subtract_each_lem :
    (x : ℕ) (incoming covered : List CoverageInterval)
    → StartsAscend covered
    → covers x (subtract_each incoming covered) ≡ (covers x incoming && not (covers x covered))
unfolding subtract_each
subtract_each_lem x [] covered h = refl
subtract_each_lem x (c ∷ incoming) covered h =
    rw
      (
        covers-append,
        covers-subtract_one x c.start c.end covered h,
        subtract_each_lem x incoming covered h,
      )
      (ground arith)

-- Where the covered intervals stand in the order of their starts, a record is in the difference just if
-- it is in an incoming interval and in no covered one.
pub covers-subtract :
    (x : ℕ) (incoming covered : List CoverageInterval)
    → StartsAscend covered
    → covers x (subtract_component_coverage_intervals incoming covered)
      ≡ (covers x incoming && not (covers x covered))
unfolding subtract_component_coverage_intervals
covers-subtract x [] covered h = refl
covers-subtract x (c ∷ incoming) [] h = ground arith
covers-subtract x (c ∷ incoming) (d ∷ covered) h =
    subtract_each_lem x (c ∷ incoming) (d ∷ covered) h

pub covers-merge_loop :
    (x : ℕ) (last : CoverageInterval) (rest : List CoverageInterval)
    → StartsAscend (last ∷ rest)
    → covers x (merge_loop last rest) ≡ covers x (last ∷ rest)
unfolding merge_loop
covers-merge_loop x last [] h = refl
covers-merge_loop x last (c ∷ rest) h = elim (Bool-cases (ltb last.end c.start)) [
  | inl p ↦ rw (p, covers-merge_loop x c rest h.1) refl
  | inr p ↦ elim (Bool-cases (ltb last.end c.end)) [
    | inl q ↦
        rw (p, q, covers-merge_loop x (between last.start c.end) rest (h.0.1, h.1.1))
          (ground (arith, p, q, h.0.0))
    | inr q ↦ rw (p, q, covers-merge_loop x last rest (h.0.1, h.1.1)) (ground (arith, p, q, h.0.0))
  ]
]
