-- ===== src/Sorted/Slices.antt =====
-- Slices of one array: the front that was written and the back that is still to be read.
use native.Mathlib.Numerals.{add-one}
use seekfs.Common.{
  ℕ, zero, suc, ◌+◌, ◌≤◌, ◌<◌, ◌≡◌, refl, ap, sym, ◌∙◌, List, [], ◌∷◌, ◌++◌, length, get_or, set,
  take, drop, tail, arith, tail-drop, length-drop,
}

-- A write at `k` is not seen by what reads from `i` on, past it.
pub drop-set : (xs : List ℕ) (k i : ℕ) (v : ℕ) → k < i → drop i (set xs k v) ≡ drop i xs
drop-set [] k i v h = refl
drop-set (x ∷ xs) k zero v h = absurd (omega arith)
drop-set (x ∷ xs) zero (suc i) v h = refl
drop-set (x ∷ xs) (suc k) (suc i) v h = drop-set xs k i v (omega arith)

take-suc-set :
    (xs : List ℕ) (k : ℕ) (v : ℕ)
    → k < length xs
    → take (suc k) (set xs k v) ≡ take k xs ++ (v ∷ [])
take-suc-set [] k v h = absurd (omega arith)
take-suc-set (x ∷ xs) zero v h = refl
take-suc-set (x ∷ xs) (suc k) v h = ap (λ ys. x ∷ ys) (take-suc-set xs k v (omega arith))

-- A write at the end of the front appends to it.
pub take-set :
    (xs : List ℕ) (k : ℕ) (v : ℕ)
    → k < length xs
    → take (k + 1) (set xs k v) ≡ take k xs ++ (v ∷ [])
take-set xs k v h = rw add-one (take-suc-set xs k v h)

get_or-drop : (xs : List ℕ) (i : ℕ) → get_or xs i 0 ≡ get_or (drop i xs) 0 0
get_or-drop [] zero = refl
get_or-drop [] (suc i) = refl
get_or-drop (x ∷ xs) zero = refl
get_or-drop (x ∷ xs) (suc i) = get_or-drop xs i

module _ (xs : List ℕ) (i x : ℕ) (back : List ℕ) (e : drop i xs ≡ x ∷ back) where
  pub read_here : get_or xs i 0 ≡ x
  read_here = get_or-drop xs i ∙ ap (λ ys. get_or ys 0 0) e

  pub back_after : drop (i + 1) xs ≡ back
  back_after = sym (tail-drop i xs) ∙ ap tail e

  pub inside : i < length xs
  inside = omega (arith, length-drop i xs, ap length e)

pub outside : (xs : List ℕ) (i : ℕ) → drop i xs ≡ [] → length xs ≤ i
outside xs i e = omega (arith, length-drop i xs, ap length e)
