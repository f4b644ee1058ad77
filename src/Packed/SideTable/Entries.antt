-- ===== src/Packed/SideTable/Entries.antt =====
-- cmd/seekfs/packed_records.go: a side table as an association list.
use seekfs.Common.{
  ℕ, ◌≤◌, ◌<◌, ◌≡◌, refl, true, false, ◌&&◌, Option, none, some, List, [], ◌∷◌, arith, ltb, ◌==◌,
  if◌then◌else◌, length, get_elem?, set, All,
}
use seekfs.Packed.Search.{rank, Increasing}
use seekfs.Packed.SideTable.Defs.{SideTable, holds_at, insert_at, remove_at}

module _ {V : Type 0} where
  -- The table as an association list.
  unfoldable pub entry : ℕ → List ℕ → List V → Option V
  entry k [] vs = none
  entry k (x ∷ xs) [] = none
  entry k (x ∷ xs) (v ∷ vs) = if x == k then some v else entry k xs vs

  pub record IsValid (t : SideTable V) : Type 0 where
    pub sorted : Increasing t.ids
    pub paired : length t.ids ≡ length t.values

  entry_past :
      (k x : ℕ) (xs : List ℕ) (vs : List V) → All (λ y. x < y) xs → k ≤ x → entry k xs vs ≡ none
  unfolding entry
  entry_past k x [] vs h e = refl
  entry_past k x (y ∷ ys) [] h e = refl
  entry_past k x (y ∷ ys) (v ∷ vs) h e = ground (arith, entry_past k x ys vs h.1)

  pub lookup_rank :
      (k : ℕ) (xs : List ℕ) (vs : List V)
      → Increasing xs
      → length xs ≡ length vs
      → (if holds_at (rank k xs) k xs && ltb (rank k xs) (length vs)
          then get_elem? vs (rank k xs)
          else none)
        ≡ entry k xs vs
  unfolding rank holds_at entry
  lookup_rank k [] vs h e = ground arith
  lookup_rank k (x ∷ xs) [] h e = absurd (omega arith)
  lookup_rank k (x ∷ xs) (v ∷ vs) h e =
      ground (arith, lookup_rank k xs vs h.1, entry_past k x xs vs h.0)

  pub entry-set :
      (k id : ℕ) (w : V) (xs : List ℕ) (vs : List V)
      → Increasing xs
      → length xs ≡ length vs
      → holds_at (rank id xs) id xs ≡ true
      → entry k xs (set vs (rank id xs) w) ≡ (if k == id then some w else entry k xs vs)
  unfolding rank holds_at entry
  entry-set k id w [] vs h e f = ground (arith, f)
  entry-set k id w (x ∷ xs) [] h e f = absurd (omega arith)
  entry-set k id w (x ∷ xs) (v ∷ vs) h e f = ground (arith, entry-set k id w xs vs h.1)

  pub entry-insert_at :
      (k id : ℕ) (w : V) (xs : List ℕ) (vs : List V)
      → Increasing xs
      → length xs ≡ length vs
      → holds_at (rank id xs) id xs ≡ false
      → entry k (insert_at (rank id xs) id xs) (insert_at (rank id xs) w vs)
        ≡ (if k == id then some w else entry k xs vs)
  unfolding rank holds_at entry
  entry-insert_at k id w [] [] h e f = ground arith
  entry-insert_at k id w [] (v ∷ vs) h e f = absurd (omega arith)
  entry-insert_at k id w (x ∷ xs) [] h e f = absurd (omega arith)
  entry-insert_at k id w (x ∷ xs) (v ∷ vs) h e f = ground (arith, entry-insert_at k id w xs vs h.1)

  pub entry-remove_at :
      (k id : ℕ) (xs : List ℕ) (vs : List V)
      → Increasing xs
      → length xs ≡ length vs
      → holds_at (rank id xs) id xs ≡ true
      → entry k (remove_at (rank id xs) xs) (remove_at (rank id xs) vs)
        ≡ (if k == id then none else entry k xs vs)
  unfolding rank holds_at entry
  entry-remove_at k id [] vs h e f = ground (arith, f)
  entry-remove_at k id (x ∷ xs) [] h e f = absurd (omega arith)
  entry-remove_at k id (x ∷ xs) (v ∷ vs) h e f =
      ground (arith, entry-remove_at k id xs vs h.1, entry_past id x xs vs h.0)

  pub entry_missing :
      (id : ℕ) (xs : List ℕ) (vs : List V)
      → Increasing xs
      → holds_at (rank id xs) id xs ≡ false
      → entry id xs vs ≡ none
  unfolding entry rank holds_at
  entry_missing id [] vs h e = refl
  entry_missing id (x ∷ xs) [] h e = refl
  entry_missing id (x ∷ xs) (v ∷ vs) h e =
      ground (arith, entry_missing id xs vs h.1, entry_past id x xs vs h.0)
