-- ===== src/Packed/SideTable/Order.antt =====
-- cmd/seekfs/packed_records.go: the id slice of a side table stays increasing.
use seekfs.Common.{
  ℕ, zero, suc, ◌<◌, ◌≡◌, refl, ap, true, false, Bool-cases, inl, inr, List, [], ◌∷◌, arith, ltb,
  length, All, All-map_pred, ltb→lt,
}
use native.Mathlib.Nat.{lt_trans}
use seekfs.Packed.Search.{search-rank, rank, Increasing}
use seekfs.Packed.SideTable.Defs.{slot, holds_at, insert_at, remove_at}

All-insert_at :
    (P : ℕ → Type 0) (j id : ℕ) (xs : List ℕ) → P id → All P xs → All P (insert_at j id xs)
All-insert_at P zero id xs p h = (p, h)
All-insert_at P (suc j) id [] p h = (p, tt)
All-insert_at P (suc j) id (x ∷ xs) p h = (h.0, All-insert_at P j id xs p h.1)

All-remove_at : (P : ℕ → Type 0) (j : ℕ) (xs : List ℕ) → All P xs → All P (remove_at j xs)
All-remove_at P zero [] h = tt
All-remove_at P zero (x ∷ xs) h = h.1
All-remove_at P (suc j) [] h = tt
All-remove_at P (suc j) (x ∷ xs) h = (h.0, All-remove_at P j xs h.1)

pub Increasing-remove_at : (j : ℕ) (xs : List ℕ) → Increasing xs → Increasing (remove_at j xs)
Increasing-remove_at zero [] h = tt
Increasing-remove_at zero (x ∷ xs) h = h.1
Increasing-remove_at (suc j) [] h = tt
Increasing-remove_at (suc j) (x ∷ xs) h =
    (All-remove_at (λ y. x < y) j xs h.0, Increasing-remove_at j xs h.1)

pub Increasing-insert_at :
    (id : ℕ) (xs : List ℕ)
    → Increasing xs
    → holds_at (rank id xs) id xs ≡ false
    → Increasing (insert_at (rank id xs) id xs)
unfolding rank holds_at
Increasing-insert_at id [] h f = (tt, tt)
Increasing-insert_at id (x ∷ xs) h f = elim (Bool-cases (ltb x id)) [
  | inl e ↦ rw e (
    All-insert_at (λ y. x < y) (rank id xs) id xs (ltb→lt x id e) h.0,
    Increasing-insert_at id xs h.1 (ground (arith, f, e)),
  )
  | inr e ↦
      let below : id < x = ground (arith, f, e) in
      rw e ((below, All-map_pred (λ y. x < y) (λ y. id < y) (λ y k. lt_trans below k) xs h.0), h)
]

pub length-insert_at {ℓ} :
    {A : Type ℓ} (j : ℕ) (v : A) (xs : List A) → length (insert_at j v xs) ≡ suc (length xs)
length-insert_at zero v xs = refl
length-insert_at (suc j) v [] = refl
length-insert_at (suc j) v (x ∷ xs) = ap suc (length-insert_at j v xs)

pub length-remove_at {ℓ} :
    {A : Type ℓ} (j : ℕ) (xs : List A) → j < length xs → suc (length (remove_at j xs)) ≡ length xs
length-remove_at zero [] h = absurd (omega arith)
length-remove_at zero (x ∷ xs) h = refl
length-remove_at (suc j) [] h = absurd (omega arith)
length-remove_at (suc j) (x ∷ xs) h = ap suc (length-remove_at j xs (omega arith))

pub holds_at_lt : (j id : ℕ) (xs : List ℕ) → holds_at j id xs ≡ true → j < length xs
unfolding holds_at
holds_at_lt j id xs h = ground (arith, h)

pub slot-rank : (id : ℕ) (xs : List ℕ) → Increasing xs → slot id xs ≡ rank id xs
unfolding slot
slot-rank id xs h = search-rank id xs h
