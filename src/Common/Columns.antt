-- ===== src/Common/Columns.antt =====
-- Lists as columns: a value a place, with a default past the end.
use Prim.Native.Nat.{ℕ, zero, suc, ◌+◌, ◌≤◌, ◌<◌}
use mathlib.Core.Path.{◌≡◌, refl, ap, ap₂}
use mathlib.Core.Bool.{◌&&◌}
use mathlib.Core.List.{List, [], ◌∷◌, ◌++◌}
use native.Mathlib.Omega.{arith}
use seekfs.Common.Tests.{if◌then◌else◌, ltb, ◌==◌}
use seekfs.Common.Lists.{length, get_or, set, replicate, take, drop}

module _ {ℓ} {A : Type ℓ} where
  pub get_or-set :
      (xs : List A) (i : ℕ) (v : A) (k : ℕ) (d : A)
      → get_or (set xs i v) k d ≡ (if k == i && ltb i (length xs) then v else get_or xs k d)
  get_or-set [] i v k d = ground arith
  get_or-set (x ∷ xs) zero v zero d = ground arith
  get_or-set (x ∷ xs) zero v (suc k) d = ground arith
  get_or-set (x ∷ xs) (suc i) v zero d = ground arith
  get_or-set (x ∷ xs) (suc i) v (suc k) d = ground (arith, get_or-set xs i v k d)

  pub get_or_past : (xs : List A) (d : A) (k : ℕ) → length xs ≤ k → get_or xs k d ≡ d
  get_or_past [] d k h = refl
  get_or_past (x ∷ xs) d zero h = absurd (omega arith)
  get_or_past (x ∷ xs) d (suc k) h = get_or_past xs d k (omega arith)

  pub get_or-replicate : (n : ℕ) (d : A) (k : ℕ) → get_or (replicate n d) k d ≡ d
  get_or-replicate zero d k = refl
  get_or-replicate (suc n) d zero = refl
  get_or-replicate (suc n) d (suc k) = get_or-replicate n d k

  -- Places that are new hold the default.
  pub get_or-append :
      (xs : List A) (n : ℕ) (d : A) (k : ℕ) → get_or (xs ++ replicate n d) k d ≡ get_or xs k d
  get_or-append [] n d k = get_or-replicate n d k
  get_or-append (x ∷ xs) n d zero = refl
  get_or-append (x ∷ xs) n d (suc k) = get_or-append xs n d k

  pub length-replicate : (n : ℕ) (d : A) → length (replicate n d) ≡ n
  length-replicate zero d = omega arith
  length-replicate (suc n) d = omega (arith, length-replicate n d)

  -- A list in front of another and behind it.
  pub get_or_before :
      (xs ys : List A) (i : ℕ) (d : A) → i < length xs → get_or (xs ++ ys) i d ≡ get_or xs i d
  get_or_before [] ys i d h = absurd (omega (arith, h))
  get_or_before (x ∷ xs) ys zero d h = refl
  get_or_before (x ∷ xs) ys (suc i) d h = get_or_before xs ys i d (omega (arith, h))

  pub get_or_behind :
      (xs ys : List A) (i : ℕ) (d : A) → get_or (xs ++ ys) (length xs + i) d ≡ get_or ys i d
  get_or_behind [] ys i d = ap (λ j. get_or ys j d) (omega arith)
  get_or_behind (x ∷ xs) ys i d =
      let e : suc (length xs) + i ≡ suc (length xs + i) = omega arith in
      rw e (get_or_behind xs ys i d)

  pub get_or-drop :
      (s : ℕ) (xs : List A) (i : ℕ) (d : A) → get_or (drop s xs) i d ≡ get_or xs (s + i) d
  get_or-drop zero xs i d = ap (λ j. get_or xs j d) (omega arith)
  get_or-drop (suc s) [] i d = refl
  get_or-drop (suc s) (x ∷ xs) i d =
      let e : suc s + i ≡ suc (s + i) = omega arith in rw e (get_or-drop s xs i d)

  pub get_or-take :
      (m : ℕ) (xs : List A) (i : ℕ) (d : A) → i < m → get_or (take m xs) i d ≡ get_or xs i d
  get_or-take zero xs i d h = absurd (omega (arith, h))
  get_or-take (suc m) [] i d h = refl
  get_or-take (suc m) (x ∷ xs) zero d h = refl
  get_or-take (suc m) (x ∷ xs) (suc i) d h = get_or-take m xs i d (omega (arith, h))

  pub length-take : (m : ℕ) (xs : List A) → m ≤ length xs → length (take m xs) ≡ m
  length-take zero xs h = refl
  length-take (suc m) [] h = absurd (omega (arith, h))
  length-take (suc m) (x ∷ xs) h = omega (arith, length-take m xs (omega (arith, h)))

  -- Lists of one length with the same values are one list.
  pub get_or-ext :
      (xs ys : List A) (d : A)
      → length xs ≡ length ys
      → ((i : ℕ) → i < length xs → get_or xs i d ≡ get_or ys i d)
      → xs ≡ ys
  get_or-ext [] [] d l h = refl
  get_or-ext [] (y ∷ ys) d l h = absurd (omega (arith, l))
  get_or-ext (x ∷ xs) [] d l h = absurd (omega (arith, l))
  get_or-ext (x ∷ xs) (y ∷ ys) d l h =
      ap₂ (λ z zs. z ∷ zs) (h 0 (omega arith))
        (get_or-ext xs ys d (omega (arith, l)) (λ i k. h (suc i) (omega (arith, k))))
