-- ===== src/Sorted/Unique.antt =====
-- cmd/seekfs/postings.go: `uniqueSortedInts`.
use mathlib.Core.List.{append_assoc, append-nil}
use seekfs.Common.{
  ℕ, zero, suc, ◌+◌, ◌≤◌, ◌<◌, ◌≡◌, refl, ap, sym, ◌∙◌, Bool, Bool-cases, true, false, ◌||◌, inl,
  inr, List, [], ◌∷◌, ◌++◌, length, set, take, drop, All, ltb, ◌==◌, ==_iff, if◌then◌else◌, arith,
}
use seekfs.Packed.Search.{Increasing}
use seekfs.Sorted.Defs.{unique_loop, unique_sorted_ints}
use seekfs.Sorted.Slices.{drop-set, take-set, read_here, back_after, inside, outside}
use seekfs.Sorted.Intersect.{member}

-- Ascending, where a number may stand more than once.
abbrev pub Ascending : List ℕ → Type 0
Ascending [] = Unit {0}
Ascending (x ∷ xs) = All (λ y. x ≤ y) xs × Ascending xs

-- What is new after `last`.
abbrev fresh : ℕ → List ℕ → List ℕ
fresh last [] = []
fresh last (v ∷ vs) = if v == last then fresh last vs else v ∷ fresh v vs

unique_loop_lem :
    (fuel : ℕ) (xs back : List ℕ) (last i k : ℕ)
    → drop i xs ≡ back
    → k ≤ i
    → length back ≤ fuel
    → unique_loop fuel xs last i k ≡ take k xs ++ fresh last back
unfolding unique_loop
unique_loop_lem zero xs [] last i k e h f = sym (append-nil (take k xs))
unique_loop_lem zero xs (v ∷ back) last i k e h f = absurd (omega arith)
unique_loop_lem (suc fuel) xs [] last i k e h f =
    let o : ltb i (length xs) ≡ false = ground (arith, outside xs i e) in
    rw o (sym (append-nil (take k xs)))
unique_loop_lem (suc fuel) xs (v ∷ back) last i k e h f =
    let o : ltb i (length xs) ≡ true = ground (arith, inside xs i v back e) in
    rw (o, read_here xs i v back e)
      (elim (Bool-cases (v == last)) [
        | inl q ↦ rw q (
            unique_loop_lem fuel xs back last (i + 1) k (back_after xs i v back e)
              (omega (arith, h)) (omega (arith, f)))
        | inr q ↦
            let rest =
              unique_loop_lem fuel (set xs k v) back v (i + 1) (k + 1)
                (drop-set xs k (i + 1) v (omega (arith, h)) ∙ back_after xs i v back e)
                (omega (arith, h)) (omega (arith, f)) in
            rw q (
              rest
              ∙ rw (take-set xs k v (omega (arith, h, inside xs i v back e)))
                  (append_assoc (take k xs) (v ∷ []) (fresh v back)))
      ])

unique_fresh : (x : ℕ) (xs : List ℕ) → unique_sorted_ints (x ∷ xs) ≡ x ∷ fresh x xs
unfolding unique_sorted_ints
unique_fresh x [] = refl
unique_fresh x (y ∷ ys) =
    let e : ltb (length (x ∷ y ∷ ys)) 2 ≡ false = ground arith in
    rw e (
      unique_loop_lem (length (x ∷ y ∷ ys)) (x ∷ y ∷ ys) (y ∷ ys) x 1 1 refl (omega arith)
        (omega arith))

fresh_above :
    (l x : ℕ) (xs : List ℕ)
    → l < x
    → All (λ y. x ≤ y) xs
    → Ascending xs
    → All (λ y. l < y) (fresh x xs)
fresh_above l x [] h a s = tt
fresh_above l x (v ∷ vs) h a s = elim (Bool-cases (v == x)) [
  | inl q ↦ rw q (fresh_above l x vs h a.1 s.1)
  | inr q ↦ let m : l < v = omega (arith, h, a.0) in rw q (m, fresh_above l v vs m s.0 s.1)
]

fresh-Increasing :
    (x : ℕ) (xs : List ℕ) → All (λ y. x ≤ y) xs → Ascending xs → Increasing (x ∷ fresh x xs)
fresh-Increasing x [] a s = (tt, tt)
fresh-Increasing x (v ∷ vs) a s = elim (Bool-cases (v == x)) [
  | inl q ↦ rw q (fresh-Increasing x vs a.1 s.1)
  | inr q ↦
      let l : x < v = ground (arith, q, a.0) in
      let rest = fresh-Increasing v vs s.0 s.1 in rw q ((l, fresh_above x v vs l s.0 s.1), rest)
]

or_twice : (b c : Bool) → b || c ≡ b || (b || c)
or_twice true c = refl
or_twice false c = refl

member-fresh : (z x : ℕ) (xs : List ℕ) → member z (x ∷ fresh x xs) ≡ member z (x ∷ xs)
member-fresh z x [] = refl
member-fresh z x (v ∷ vs) = elim (Bool-cases (v == x)) [
  | inl q ↦ rw (q, (==_iff v x).0 q) (member-fresh z x vs ∙ or_twice (z == x) (member z vs))
  | inr q ↦ rw q (ap (λ b. z == x || b) (member-fresh z v vs))
]

-- Over a slice in ascending order, each number is kept once and in order, and no other number comes in.
pub unique_sorted_ints_lem :
    (xs : List ℕ)
    → Ascending xs
    → Increasing (unique_sorted_ints xs)
      × ((z : ℕ) → member z (unique_sorted_ints xs) ≡ member z xs)
unfolding unique_sorted_ints
unique_sorted_ints_lem [] s = (tt, λ z. refl)
unique_sorted_ints_lem (x ∷ xs) s =
    rw (unique_fresh x xs) (fresh-Increasing x xs s.0 s.1, λ z. member-fresh z x xs)
