-- ===== src/Sorted/Intersect.antt =====
-- cmd/seekfs/postings.go: `intersectSortedInts` against membership.
use mathlib.Core.List.{append_assoc, append-nil}
use seekfs.Common.{
  ℕ, zero, suc, ◌+◌, ◌≤◌, ◌<◌, ◌≡◌, refl, sym, subst, ◌∙◌, Bool, Bool-cases, true, false, ◌&&◌,
  ◌||◌, inl, inr, List, [], ◌∷◌, ◌++◌, length, set, take, drop, filter, All, ltb, ◌==◌, ==_iff,
  arith,
}
use seekfs.Packed.Search.{Increasing}
use seekfs.Sorted.Defs.{intersect_loop, intersect_sorted_ints}
use seekfs.Sorted.Slices.{drop-set, take-set, read_here, back_after, inside, outside}

abbrev pub member : ℕ → List ℕ → Bool
member x [] = false
member x (y ∷ ys) = x == y || member x ys

member_below : (x : ℕ) (ys : List ℕ) → All (λ y. x < y) ys → member x ys ≡ false
member_below x [] h = refl
member_below x (y ∷ ys) h = ground (arith, h.0, member_below x ys h.1)

-- A number that is below all of a list does not change which of them are kept.
filter_below :
    (y : ℕ) (ys xs : List ℕ)
    → All (λ x. y < x) xs
    → filter (λ x. member x (y ∷ ys)) xs ≡ filter (λ x. member x ys) xs
filter_below y ys [] h = refl
filter_below y ys (x ∷ xs) h =
    let e : (x == y) ≡ false = ground (arith, h.0) in rw (e, filter_below y ys xs h.1) refl

filter_none : (xs : List ℕ) → filter (λ x. member x []) xs ≡ []
filter_none [] = refl
filter_none (x ∷ xs) = filter_none xs

All-below : (x y : ℕ) (ys : List ℕ) → x < y → All (λ z. y < z) ys → All (λ z. x < z) ys
All-below x y [] h r = tt
All-below x y (z ∷ zs) h r = (omega (arith, r.0), All-below x y zs h r.1)

module _ (b : List ℕ) where
  loop_lem :
      (fuel : ℕ) (a front back : List ℕ) (i j k : ℕ)
      → drop i a ≡ front
      → drop j b ≡ back
      → Increasing front
      → Increasing back
      → k ≤ i
      → length front + length back ≤ fuel
      → intersect_loop fuel a b i j k ≡ take k a ++ filter (λ x. member x back) front
  unfolding intersect_loop
  loop_lem zero a [] back i j k e d s t h f = sym (append-nil (take k a))
  loop_lem zero a (x ∷ front) back i j k e d s t h f = absurd (omega arith)
  loop_lem (suc fuel) a [] back i j k e d s t h f =
      let o : ltb i (length a) ≡ false = ground (arith, outside a i e) in
      rw o (sym (append-nil (take k a)))
  loop_lem (suc fuel) a (x ∷ front) [] i j k e d s t h f =
      let o : ltb j (length b) ≡ false = ground (arith, outside b j d) in
      let c : (ltb i (length a) && ltb j (length b)) ≡ false = ground (arith, o) in
      rw (c, filter_none) (sym (append-nil (take k a)))
  loop_lem (suc fuel) a (x ∷ front) (y ∷ back) i j k e d s t h f =
      let c : (ltb i (length a) && ltb j (length b)) ≡ true =
        ground (arith, inside a i x front e, inside b j y back d) in
      rw (c, read_here a i x front e, read_here b j y back d)
        (elim (Bool-cases (x == y)) [
          | inl q ↦
              let y_below : All (λ z. y < z) front =
                subst (λ w. All (λ z. w < z) front) ((==_iff x y).0 q) s.0 in
              let rest =
                loop_lem fuel (set a k x) front back (i + 1) (j + 1) (k + 1)
                  (drop-set a k (i + 1) x (omega (arith, h)) ∙ back_after a i x front e)
                  (back_after b j y back d) s.1 t.1 (omega (arith, h)) (omega (arith, f)) in
              rw (q, filter_below y back front y_below)
                (rest
                  ∙ rw (take-set a k x (omega (arith, h, inside a i x front e)))
                      (append_assoc (take k a) (x ∷ []) (filter (λ z. member z back) front)))
          | inr q ↦ elim (Bool-cases (ltb x y)) [
            | inl l ↦
                let x_below : member x back ≡ false =
                  member_below x back (All-below x y back (ground (arith, l)) t.0) in
                rw (q, l, x_below)
                  (loop_lem fuel a front (y ∷ back) (i + 1) j k (back_after a i x front e) d s.1 t
                    (omega (arith, h)) (omega (arith, f)))
            | inr g ↦
                let below : y < x = ground (arith, q, g) in
                rw (q, g, filter_below y back front (All-below y x front below s.0))
                  (loop_lem fuel a (x ∷ front) back i (j + 1) k e (back_after b j y back d) s t.1 h
                    (omega (arith, f)))
          ]
        ])

-- For two slices in ascending order, each number once, the intersection is the numbers of the first
-- that the second has, although it is written over the first while that is read.
pub intersect_sorted_ints_lem :
    (a b : List ℕ)
    → Increasing a
    → Increasing b
    → intersect_sorted_ints a b ≡ filter (λ x. member x b) a
unfolding intersect_sorted_ints
intersect_sorted_ints_lem a b s t =
    loop_lem b (length a + length b) a a b 0 0 0 refl refl s t (omega arith) (omega arith)
