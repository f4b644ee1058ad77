-- ===== src/Fuzzy/Alignment.antt =====
-- The optimal string alignment distance, by recursion on the two texts' beginnings.
use Prim.Native.Nat.{min}
use seekfs.Common.{
  ℕ, zero, suc, ◌+◌, ◌-◌, ◌≤◌, ◌<◌, ◌≡◌, Bool, ◌&&◌, ◌==◌, get_or, List, length, arith,
  if◌then◌else◌,
}

-- A removal, an insertion and a replacement.
abbrev pub edited : ℕ → ℕ → ℕ → ℕ
edited above left diagonal = min (min (above + 1) (left + 1)) diagonal

-- Replacing an item costs 1, and nothing where the items are equal.
unfoldable pub unequal : List ℕ → List ℕ → ℕ → ℕ → ℕ
unequal a b i j = if get_or a i 0 == get_or b j 0 then 0 else 1

-- The items `i` and `i + 1` of one text are the items `j + 1` and `j` of the other.
unfoldable pub exchanged : List ℕ → List ℕ → ℕ → ℕ → Bool
exchanged a b i j = (get_or a i 0 == get_or b (suc j) 0) && (get_or a (suc i) 0 == get_or b j 0)

module _ (a b : List ℕ) where
  -- The distance of the first `i` items of `a` and the first `j` items of `b`.
  unfoldable pub osa : ℕ → ℕ → ℕ
  osa zero j = j
  osa (suc i) zero = suc i
  osa (suc zero) (suc j) =
      edited (osa zero (suc j)) (osa (suc zero) j) (osa zero j + unequal a b 0 j)
  osa (suc (suc i)) (suc zero) =
      edited (osa (suc i) (suc zero)) (osa (suc (suc i)) zero)
        (osa (suc i) zero + unequal a b (suc i) 0)
  osa (suc (suc i)) (suc (suc j)) =
      let d =
        edited (osa (suc i) (suc (suc j))) (osa (suc (suc i)) (suc j))
          (osa (suc i) (suc j) + unequal a b (suc i) (suc j)) in
      if exchanged a b i j then min d (osa i j + 1) else d

  unequal_bound : (i j : ℕ) → unequal a b i j ≤ 1
  unfolding unequal
  unequal_bound i j = ground arith

  -- The distance is not less than the difference of the lengths.
  pub osa_bounds : (i j : ℕ) → (i - j ≤ osa i j) × (j - i ≤ osa i j)
  unfolding osa
  osa_bounds zero j = omega arith
  osa_bounds (suc i) zero = omega arith
  osa_bounds (suc zero) (suc j) =
      omega (arith, osa_bounds zero (suc j), osa_bounds (suc zero) j, osa_bounds zero j)
  osa_bounds (suc (suc i)) (suc zero) =
      omega (
        arith,
        osa_bounds (suc i) (suc zero),
        osa_bounds (suc (suc i)) zero,
        osa_bounds (suc i) zero,
      )
  osa_bounds (suc (suc i)) (suc (suc j)) =
      let above = osa_bounds (suc i) (suc (suc j)) in
      let left = osa_bounds (suc (suc i)) (suc j) in
      let diagonal = osa_bounds (suc i) (suc j) in
      let back = osa_bounds i j in ground (arith, above, left, diagonal, back)

  pub osa-diagonal : (i j : ℕ) → osa (suc i) (suc j) ≤ osa i j + 1
  unfolding osa
  osa-diagonal zero j = omega (arith, unequal_bound 0 j)
  osa-diagonal (suc i) zero = omega (arith, unequal_bound (suc i) 0)
  osa-diagonal (suc i) (suc j) = let c = unequal_bound (suc i) (suc j) in ground (arith, c)

  -- Every distance of the row is over the bound.
  unfoldable pub Over : ℕ → ℕ → Type 0
  Over bound i = (j : ℕ) → j ≤ length b → bound < osa i j

  Over-suc : (bound i j : ℕ) → Over bound i → j ≤ length b → bound < osa (suc i) j
  unfolding osa Over
  Over-suc bound zero zero o h = omega (arith, o 0 (omega arith))
  Over-suc bound (suc i) zero o h = omega (arith, o 0 (omega arith))
  Over-suc bound zero (suc j) o h =
      omega (arith, o (suc j) h, o j (omega (arith, h)), Over-suc bound zero j o (omega (arith, h)))
  Over-suc bound (suc i) (suc zero) o h = omega (arith, o 1 h, o 0 (omega (arith, h)))
  Over-suc bound (suc i) (suc (suc j)) o h =
      let above = o (suc (suc j)) h in
      let diagonal = o (suc j) (omega (arith, h)) in
      let left = Over-suc bound (suc i) (suc j) o (omega (arith, h)) in
      let back = osa-diagonal i j in ground (arith, above, diagonal, left, back)

  -- With one row the rows behind it are over the bound.
  pub Over-later : (bound i n : ℕ) → Over bound i → Over bound (n + i)
  unfolding Over
  Over-later bound i zero o j h = let e : 0 + i ≡ i = omega arith in rw e (o j h)
  Over-later bound i (suc n) o j h =
      let e : suc n + i ≡ suc (n + i) = omega arith in
      rw e (Over-suc bound (n + i) j (Over-later bound i n o) h)

-- The distance of two texts.
abbrev pub osa_distance : List ℕ → List ℕ → ℕ
osa_distance a b = osa a b (length a) (length b)
