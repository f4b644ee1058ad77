-- ===== src/Packed/Search.antt =====
-- `sort.Search` of Go's library, as cmd/seekfs/packed_records.go uses it: a binary search for the
-- first index at which a test holds.
use seekfs.Common.{
  ℕ, zero, suc, ◌+◌, ◌/◌, ◌≤◌, ◌<◌, ◌≡◌, Bool, true, false, Bool-cases, inl, inr, List, [], ◌∷◌,
  arith, ltb, leb, if◌then◌else◌, length, get_or, All,
}

-- `for i < j { h := (i + j) / 2; if !f(h) { i = h + 1 } else { j = h } }`
search_loop : (ℕ → Bool) → ℕ → ℕ → ℕ → ℕ
search_loop f zero i j = i
search_loop f (suc fuel) i j = elim (ltb i j) [
  | false ↦ i
  | true ↦
      let h = (i + j) / 2 in
      elim (f h) [ false ↦ search_loop f fuel (h + 1) j | true ↦ search_loop f fuel i h ]
]

-- Each round shrinks the range, so `n` rounds are enough.
unfoldable pub search : ℕ → (ℕ → Bool) → ℕ
unfolding search_loop
search n f = search_loop f n 0 n

-- The test fails below `r` and holds from `r` on.
abbrev pub Turns : (ℕ → Bool) → ℕ → ℕ → Type 0
Turns f n r = (j : ℕ) → j < n → f j ≡ leb r j

search_loop_lem :
    (f : ℕ → Bool) (n r fuel i j : ℕ)
    → Turns f n r
    → i ≤ r
    → r ≤ j
    → j ≤ n
    → j ≤ i + fuel
    → search_loop f fuel i j ≡ r
unfolding search_loop
search_loop_lem f n r zero i j t h k m e = omega arith
search_loop_lem f n r (suc fuel) i j t h k m e = elim (Bool-cases (ltb i j)) [
  | inr stop ↦ rw (stop, search_loop) (ground (arith, stop))
  | inl go ↦
      let mid = (i + j) / 2 in
      let below : mid < j = ground (arith, go) in
      let from : i ≤ mid = ground (arith, go) in
      rw (go, search_loop)
        (elim (Bool-cases (leb r mid)) [
          | inl c ↦
              rw (t mid (ground (arith, below)), c)
                (search_loop_lem f n r fuel i mid t h (ground (arith, c)) (ground (arith, below))
                  (ground (arith, below)))
          | inr c ↦
              rw (t mid (ground (arith, below)), c)
                (search_loop_lem f n r fuel (mid + 1) j t (ground (arith, c)) k m
                  (ground (arith, from)))
        ])
]

-- A binary search finds the index at which the test turns.
pub search_lem : (f : ℕ → Bool) (n r : ℕ) → Turns f n r → r ≤ n → search n f ≡ r
unfolding search
search_lem f n r t h = search_loop_lem f n r n 0 n t (omega arith) h (omega arith) (omega arith)

abbrev pub Increasing : List ℕ → Type 0
Increasing [] = Unit {0}
Increasing (x ∷ xs) = All (λ y. x < y) xs × Increasing xs

-- How many of the leading ids are below `id`.
unfoldable pub rank : ℕ → List ℕ → ℕ
rank id [] = 0
rank id (x ∷ xs) = if ltb x id then suc (rank id xs) else 0

pub rank-le : (id : ℕ) (xs : List ℕ) → rank id xs ≤ length xs
unfolding rank
rank-le id [] = omega arith
rank-le id (x ∷ xs) = ground (arith, rank-le id xs)

-- In an increasing list the ids from the rank on are those that are not below.
get_or-All : (x : ℕ) (xs : List ℕ) (j : ℕ) → All (λ y. x < y) xs → j < length xs → x < get_or xs j 0
get_or-All x [] j h k = absurd (omega arith)
get_or-All x (y ∷ ys) zero h k = h.0
get_or-All x (y ∷ ys) (suc j) h k = get_or-All x ys j h.1 (omega arith)

rank-Turns :
    (id : ℕ) (xs : List ℕ)
    → Increasing xs
    → Turns (λ j. leb id (get_or xs j 0)) (length xs) (rank id xs)
unfolding rank
rank-Turns id [] h j k = absurd (omega arith)
rank-Turns id (x ∷ xs) h zero k = ground arith
rank-Turns id (x ∷ xs) h (suc j) k = ground (arith, rank-Turns id xs h.1 j, get_or-All x xs j h.0)

pub search-rank :
    (id : ℕ) (xs : List ℕ)
    → Increasing xs
    → search (length xs) (λ j. leb id (get_or xs j 0)) ≡ rank id xs
search-rank id xs h = search_lem _ (length xs) (rank id xs) (rank-Turns id xs h) (rank-le id xs)
