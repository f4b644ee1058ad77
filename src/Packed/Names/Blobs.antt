-- ===== src/Packed/Names/Blobs.antt =====
-- cmd/seekfs/packed_records.go: spans of a blob that grows at its end.
use seekfs.Common.{
  ℕ, zero, suc, ◌+◌, ◌-◌, ◌^◌, ◌≤◌, ◌<◌, ◌≡◌, refl, ap, ap₂, Bool-cases, inl, inr, true, List, [],
  ◌∷◌, ◌++◌, length, length-take, take, ltb, ==_iff, arith,
}
use seekfs.Packed.Names.Defs.{bytes_eq, span, clipped, cut}

pub take_all : (n : ℕ) (xs : List ℕ) → length xs ≤ n → take n xs ≡ xs
take_all zero [] h = refl
take_all zero (x ∷ xs) h = absurd (omega arith)
take_all (suc n) [] h = refl
take_all (suc n) (x ∷ xs) h = ap (λ ys. x ∷ ys) (take_all n xs (omega arith))

take-append : (n : ℕ) (xs ys : List ℕ) → n ≤ length xs → take n (xs ++ ys) ≡ take n xs
take-append zero xs ys h = refl
take-append (suc n) [] ys h = absurd (omega arith)
take-append (suc n) (x ∷ xs) ys h = ap (λ zs. x ∷ zs) (take-append n xs ys (omega arith))

-- A span inside the blob stays what it was when the blob grows.
pub span-append :
    (off n : ℕ) (blob more : List ℕ)
    → off + n ≤ length blob
    → span off n (blob ++ more) ≡ span off n blob
span-append zero n blob more h = take-append n blob more (omega arith)
span-append (suc off) zero [] more h = absurd (omega arith)
span-append (suc off) (suc n) [] more h = absurd (omega arith)
span-append (suc off) n (x ∷ blob) more h = span-append off n blob more (omega arith)

-- A span at the old end reads what was appended.
pub span_end : (n : ℕ) (blob more : List ℕ) → span (length blob) n (blob ++ more) ≡ take n more
span_end n [] more = refl
span_end n (x ∷ blob) more = span_end n blob more

length-cut : (limit : ℕ) (name : List ℕ) → length (cut limit name) ≤ limit
unfolding cut
length-cut limit name = elim (Bool-cases (ltb limit (length name))) [
  | inl e ↦ rw e (ground (arith, e, length-take limit name))
  | inr e ↦ rw e (ground (arith, e))
]

pub length-clipped : (name : List ℕ) → length (clipped name) < 2 ^ 16
unfolding clipped
length-clipped name = omega (arith, length-cut (2 ^ 16 - 1) name)

cut_short : (limit : ℕ) (name : List ℕ) → length name ≤ limit → cut limit name ≡ name
unfolding cut
cut_short limit name h = ground (arith, h)

pub clipped_short : (name : List ℕ) → length name < 2 ^ 16 → clipped name ≡ name
unfolding clipped
clipped_short name h = cut_short (2 ^ 16 - 1) name (omega arith)

pub bytes_eq_sound : (xs ys : List ℕ) → bytes_eq xs ys ≡ true → xs ≡ ys
bytes_eq_sound [] [] h = refl
bytes_eq_sound [] (y ∷ ys) h = absurd (ground (arith, h))
bytes_eq_sound (x ∷ xs) [] h = absurd (ground (arith, h))
bytes_eq_sound (x ∷ xs) (y ∷ ys) h =
    ap₂ (λ z zs. z ∷ zs) ((==_iff x y).0 (ground (arith, h)))
      (bytes_eq_sound xs ys (ground (arith, h)))
