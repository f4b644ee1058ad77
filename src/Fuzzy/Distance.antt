-- ===== src/Fuzzy/Distance.antt =====
-- cmd/seekfs/fuzzy.go: `damerauLevenshteinBounded`, over the code points of two texts. The loop variables
-- `i` and `j`, which start at 1, are here less one.
use seekfs.Common.{
  ℕ, zero, suc, ◌+◌, ◌-◌, Bool, true, false, ◌&&◌, ◌||◌, List, [], ◌∷◌, length, replicate, get_or,
  set, ltb, leb, ◌==◌, if◌then◌else◌,
}

-- `if v < d { d = v }`
abbrev pub lower : ℕ → ℕ → ℕ
lower d v = if ltb v d then v else d

module _ (a b : List ℕ) where
  -- `a[i-1] == b[j-1]`
  abbrev pub same : ℕ → ℕ → Bool
  same i j = get_or a i 0 == get_or b j 0

  unfoldable pub cost : ℕ → ℕ → ℕ
  cost i j = if same i j then 0 else 1

  -- The last two items of each are each other's, the wrong way round.
  unfoldable pub swapped : ℕ → ℕ → Bool
  swapped i j = ltb 0 i && ltb 0 j && same i (j - 1) && same (i - 1) j

  -- The value of `cur[j]`, from the rows as they stand.
  unfoldable pub cell : ℕ → List ℕ → List ℕ → List ℕ → ℕ → ℕ
  cell i prev2 prev cur j =
      let d =
        lower (lower (get_or prev (suc j) 0 + 1) (get_or cur j 0 + 1))
          (get_or prev j 0 + cost i j) in
      if swapped i j then lower d (get_or prev2 (j - 1) 0 + 1) else d

  -- The row and the least of its values.
  unfoldable pub row_loop : ℕ → ℕ → List ℕ → List ℕ → ℕ → List ℕ → ℕ → List ℕ × ℕ
  row_loop zero i prev2 prev j cur row_min = (cur, row_min)
  row_loop (suc rounds) i prev2 prev j cur row_min =
      let d = cell i prev2 prev cur j in
      row_loop rounds i prev2 prev (suc j) (set cur (suc j) d) (lower row_min d)

  -- `prev2, prev, cur = prev, cur, prev2`
  unfoldable pub rows_loop : ℕ → ℕ → ℕ → List ℕ → List ℕ → List ℕ → ℕ
  rows_loop bound zero i prev2 prev cur =
      if ltb bound (get_or prev (length b) 0) then bound + 1 else get_or prev (length b) 0
  rows_loop bound (suc rounds) i prev2 prev cur =
      let row = row_loop (length b) i prev2 prev 0 (set cur 0 (suc i)) (suc i) in
      elim (ltb bound row.1) [
        | true ↦ bound + 1
        | false ↦ rows_loop bound rounds (suc i) prev row.0 prev2
      ]

-- `prev[j] = j`, from `j` on.
abbrev pub first_row : ℕ → ℕ → List ℕ
first_row zero j = []
first_row (suc n) j = j ∷ first_row n (suc j)

unfoldable pub damerau_levenshtein_bounded : List ℕ → List ℕ → ℕ → ℕ
damerau_levenshtein_bounded a b bound =
    let la = length a in
    let lb = length b in
    let zeros : List ℕ = replicate (suc lb) 0 in
    if ltb bound (la - lb) || ltb bound (lb - la)
    then bound + 1
    else if la == 0
    then (if leb lb bound then lb else bound + 1)
    else if lb == 0
    then (if leb la bound then la else bound + 1)
    else rows_loop a b bound la 0 zeros (first_row (suc lb) 0) zeros
