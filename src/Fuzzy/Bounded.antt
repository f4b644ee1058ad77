-- ===== src/Fuzzy/Bounded.antt =====
-- cmd/seekfs/fuzzy.go: what `damerauLevenshteinBounded` returns.
use seekfs.Common.{
  ℕ, zero, suc, ◌+◌, ◌-◌, ◌<◌, ◌≡◌, refl, ap, ◌∙◌, Bool-cases, false, ◌||◌, inl, inr, List, length,
  length-replicate, replicate, get_or, ltb, leb, ◌==◌, ==_iff, arith,
}
use seekfs.Fuzzy.Distance.{first_row, damerau_levenshtein_bounded}
use seekfs.Fuzzy.Alignment.{osa, osa_bounds, osa_distance}
use seekfs.Fuzzy.Rows.{IsRow, capped, rows_loop-osa}

length-first_row : (n j : ℕ) → length (first_row n j) ≡ n
length-first_row zero j = refl
length-first_row (suc n) j = ap suc (length-first_row n (suc j))

get_or-first_row : (n j k : ℕ) → k < n → get_or (first_row n j) k 0 ≡ j + k
get_or-first_row zero j k h = absurd (omega (arith, h))
get_or-first_row (suc n) j zero h = omega arith
get_or-first_row (suc n) j (suc k) h =
    omega (arith, get_or-first_row n (suc j) k (omega (arith, h)))

module _ (a b : List ℕ) where
  first-IsRow : IsRow a b 0 (suc (length b)) (first_row (suc (length b)) 0)
  unfolding osa
  first-IsRow = record {
    size = length-first_row (suc (length b)) 0;
    cells = λ j h. omega (arith, get_or-first_row (suc (length b)) 0 j h);
  }

  osa_right : (i : ℕ) → osa a b i 0 ≡ i
  unfolding osa
  osa_right zero = refl
  osa_right (suc i) = refl

  osa_left : (j : ℕ) → osa a b 0 j ≡ j
  unfolding osa
  osa_left j = refl

  -- The bounded distance is the optimal string alignment distance, or one more than the bound where that
  -- is over the bound: stopping at a row that is over it loses nothing.
  pub damerau_levenshtein_bounded-osa :
      (bound : ℕ) → damerau_levenshtein_bounded a b bound ≡ capped bound (osa_distance a b)
  unfolding damerau_levenshtein_bounded
  damerau_levenshtein_bounded-osa bound =
      let la = length a in
      let lb = length b in
      let zeros : List ℕ = replicate (suc lb) 0 in
      let d = osa a b la lb in
      let apart = osa_bounds a b la lb in
      elim (Bool-cases (ltb bound (la - lb) || ltb bound (lb - la))) [
        | inl y ↦ let cut : leb d bound ≡ false = ground (arith, apart, y) in rw (y, cut) refl
        | inr n ↦ elim (Bool-cases (la == 0)) [
          | inl y ↦
              let value : d ≡ lb = ap (λ z. osa a b z lb) ((==_iff la 0).0 y) ∙ osa_left lb in
              rw (n, y, value) refl
          | inr o ↦ elim (Bool-cases (lb == 0)) [
            | inl y ↦
                let value : d ≡ la = ap (osa a b la) ((==_iff lb 0).0 y) ∙ osa_right la in
                rw (n, o, y, value) refl
            | inr p ↦
                rw (n, o, p)
                  (rows_loop-osa a b bound la 0 zeros (first_row (suc lb) 0) zeros (omega arith)
                    (length-replicate (suc lb) 0) first-IsRow (length-replicate (suc lb) 0))
          ]
        ]
      ]
