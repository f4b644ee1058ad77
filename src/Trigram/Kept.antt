-- ===== src/Trigram/Kept.antt =====
-- Lists of ids that are kept by a test, and tests on all of a list.
use seekfs.Common.{
  ℕ, zero, suc, ◌+◌, ◌≤◌, ◌<◌, ◌≡◌, refl, sym, ap, subst, ◌∙◌, Bool, Bool-cases, true, false, ◌&&◌,
  inl, inr, List, [], ◌∷◌, ◌++◌, filter, All, All-filter, All-map_pred, ◌==◌, ==_iff, if_rule,
  arith,
}
use seekfs.Packed.Search.{Increasing}
use seekfs.Replay.BaseIds.{member}

-- The `n` ids from `id`.
abbrev pub range : ℕ → ℕ → List ℕ
range id zero = []
range id (suc n) = id ∷ range (suc id) n

abbrev pub every : (ℕ → Bool) → List ℕ → Bool
every p [] = true
every p (x ∷ xs) = p x && every p xs

pub range-append : (id a b : ℕ) → range id (a + b) ≡ range id a ++ range (id + a) b
range-append id zero b =
    let n : 0 + b ≡ b = omega arith in let i : id + 0 ≡ id = omega arith in rw (n, i) refl
range-append id (suc a) b =
    let n : suc a + b ≡ suc (a + b) = omega arith in
    let i : id + suc a ≡ suc id + a = omega arith in
    rw (n, i) (ap (λ xs. id ∷ xs) (range-append (suc id) a b))

range_above : (low id n : ℕ) → low < id → All (λ x. low < x) (range id n)
range_above low id zero h = tt
range_above low id (suc n) h = (h, range_above low (suc id) n (omega (arith, h)))

pub range-Increasing : (id n : ℕ) → Increasing (range id n)
range-Increasing id zero = tt
range-Increasing id (suc n) = (range_above id (suc id) n (omega arith), range-Increasing (suc id) n)

pub range_below : (top id n : ℕ) → id + n ≤ top → All (λ x. x < top) (range id n)
range_below top id zero h = tt
range_below top id (suc n) h = (omega (arith, h), range_below top (suc id) n (omega (arith, h)))

pub filter-Increasing : (p : ℕ → Bool) (xs : List ℕ) → Increasing xs → Increasing (filter p xs)
filter-Increasing p [] h = tt
filter-Increasing p (x ∷ xs) h =
    let rest = filter-Increasing p xs h.1 in
    if_rule Increasing (p x) (λ y. (All-filter (λ z. x < z) p xs h.0, rest)) (λ n. rest)

pub filter-append :
    (p : ℕ → Bool) (xs ys : List ℕ) → filter p (xs ++ ys) ≡ filter p xs ++ filter p ys
filter-append p [] ys = refl
filter-append p (x ∷ xs) ys = rw (filter-append p xs ys) (ground arith)

pub filter-filter :
    (p q : ℕ → Bool) (xs : List ℕ) → filter q (filter p xs) ≡ filter (λ x. p x && q x) xs
filter-filter p q [] = refl
filter-filter p q (x ∷ xs) = elim (Bool-cases (p x)) [
  | inl y ↦ rw (y, filter-filter p q xs) refl
  | inr n ↦ rw (n, filter-filter p q xs) refl
]

pub filter_same :
    (p q : ℕ → Bool) (xs : List ℕ) → All (λ x. p x ≡ q x) xs → filter p xs ≡ filter q xs
filter_same p q [] h = refl
filter_same p q (x ∷ xs) h = rw (h.0, filter_same p q xs h.1) refl

-- A test that asks for more keeps none where the first keeps none.
pub filter_narrow :
    (p q : ℕ → Bool) (xs : List ℕ)
    → ((x : ℕ) → p x ≡ false → q x ≡ false)
    → filter p xs ≡ []
    → filter q xs ≡ []
filter_narrow p q [] h e = refl
filter_narrow p q (x ∷ xs) h e = elim (Bool-cases (p x)) [
  | inl y ↦ absurd (ground (arith, e, y))
  | inr n ↦
      let rest : filter p xs ≡ [] = ground (arith, e, n) in
      rw (h x n, filter_narrow p q xs h rest) refl
]

pub member-filter :
    (p : ℕ → Bool) (xs : List ℕ) (k : ℕ) → member k (filter p xs) ≡ (member k xs && p k)
member-filter p [] k = refl
member-filter p (x ∷ xs) k =
    let ih = member-filter p xs k in
    elim (Bool-cases (k == x)) [
      | inl e ↦
          let same : k ≡ x = (==_iff k x).0 e in
          elim (Bool-cases (p x)) [
            | inl y ↦ rw y (ground (arith, e, y, same, ih))
            | inr n ↦ rw n (ground (arith, e, n, same, ih))
          ]
      | inr e ↦ elim (Bool-cases (p x)) [
        | inl y ↦ rw y (ground (arith, e, ih))
        | inr n ↦ rw n (ground (arith, e, ih))
      ]
    ]

pub own_members : (xs : List ℕ) → All (λ x. member x xs ≡ true) xs
own_members [] = tt
own_members (x ∷ xs) = (
  ground arith,
  All-map_pred (λ z. member z xs ≡ true) (λ z. member z (x ∷ xs) ≡ true) (λ z h. ground (arith, h))
      xs (own_members xs),
)

-- A test that is passed by all keeps all.
pub filter_nothing_off : (xs : List ℕ) → filter (λ x. true) xs ≡ xs
filter_nothing_off [] = refl
filter_nothing_off (x ∷ xs) = ap (λ ys. x ∷ ys) (filter_nothing_off xs)

passed_by :
    (p : ℕ → Bool) (xs : List ℕ) (k : ℕ) → every p xs ≡ true → member k xs ≡ true → p k ≡ true
passed_by p [] k h m = absurd (ground (arith, m))
passed_by p (x ∷ xs) k h m = elim (Bool-cases (k == x)) [
  | inl e ↦ ap p ((==_iff k x).0 e) ∙ ground (arith, h)
  | inr e ↦ passed_by p xs k (ground (arith, h)) (ground (arith, m, e))
]

pub every_from :
    (p : ℕ → Bool) (xs : List ℕ) → ((k : ℕ) → member k xs ≡ true → p k ≡ true) → every p xs ≡ true
every_from p [] h = refl
every_from p (x ∷ xs) h =
    let first : p x ≡ true = h x (ground arith) in
    let rest = every_from p xs (λ k m. h k (ground (arith, m))) in ground (arith, first, rest)

both_ways : (b c : Bool) → (b ≡ true → c ≡ true) → (c ≡ true → b ≡ true) → b ≡ c
both_ways true c f g = sym (f refl)
both_ways false true f g = g refl
both_ways false false f g = refl

-- The order and the number of times do not matter to a test of all.
pub every_same :
    (p : ℕ → Bool) (xs ys : List ℕ)
    → ((k : ℕ) → member k xs ≡ member k ys)
    → every p xs ≡ every p ys
every_same p xs ys h =
    both_ways (every p xs) (every p ys) (λ a. every_from p ys (λ k m. passed_by p xs k a (h k ∙ m)))
      (λ a. every_from p xs (λ k m. passed_by p ys k a (sym (h k) ∙ m)))

pub at_range : (id n k : ℕ) → k < n → member (id + k) (range id n) ≡ true
at_range id zero k h = absurd (omega (arith, h))
at_range id (suc n) zero h = let e : (id + 0 == id) ≡ true = ground arith in rw e refl
at_range id (suc n) (suc k) h =
    let e : suc id + k ≡ id + suc k = omega arith in
    let rest =
      subst (λ x. member x (range (suc id) n) ≡ true) e
        (at_range (suc id) n k (omega (arith, h))) in
    ground (arith, rest)
