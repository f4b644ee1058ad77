-- ===== src/Fuzzy/Better.antt =====
-- cmd/seekfs/fuzzy.go: what `fuzzyNameDistance` makes of a window.
use seekfs.Common.{
  ℕ, zero, suc, ◌+◌, ◌≤◌, ◌≡◌, ◌⊎◌, refl, sym, ap, subst, ◌∙◌, Bool-cases, ◌&&◌, inl, inr, List, [],
  ◌∷◌, ◌++◌, length, take, drop, ltb, leb, ◌==◌, if◌then◌else◌, Infix, arith,
}
use seekfs.Fuzzy.Distance.{damerau_levenshtein_bounded}
use seekfs.Fuzzy.Alignment.{osa_distance}
use seekfs.Fuzzy.Rows.{capped}
use seekfs.Fuzzy.Bounded.{damerau_levenshtein_bounded-osa}
use seekfs.Fuzzy.Window.{Best, window, consider}

take_front : (xs ys : List ℕ) → take (length xs) (xs ++ ys) ≡ xs
take_front [] ys = refl
take_front (x ∷ xs) ys = ap (λ zs. x ∷ zs) (take_front xs ys)

drop_front : (xs ys : List ℕ) → drop (length xs) (xs ++ ys) ≡ ys
drop_front [] ys = refl
drop_front (x ∷ xs) ys = drop_front xs ys

pub window_of : (name w : List ℕ) (i : Infix w name) → window name (length i.0) (length w) ≡ w
window_of name w (pre, post, e) =
    ap (λ z. take (length w) (drop (length pre) z)) e
    ∙ ap (take (length w)) (drop_front pre (w ++ post))
    ∙ take_front w post

take-drop : (n : ℕ) (xs : List ℕ) → xs ≡ take n xs ++ drop n xs
take-drop zero xs = refl
take-drop (suc n) [] = refl
take-drop (suc n) (x ∷ xs) = ap (λ zs. x ∷ zs) (take-drop n xs)

window-Infix : (name : List ℕ) (start width : ℕ) → Infix (window name start width) name
window-Infix name start width =
    let behind = drop start name in
    (
      take start name,
      drop width behind,
      take-drop start name ∙ ap (λ z. take start name ++ z) (take-drop width behind),
    )

consider_distance :
    (best : Best) (start d : ℕ)
    → (consider best start d).distance ≡ (if ltb d best.distance then d else best.distance)
unfolding consider
consider_distance best start d = elim (Bool-cases (ltb d best.distance)) [
  | inl y ↦ rw y refl
  | inr n ↦ elim (Bool-cases ((d == best.distance) && ltb start best.start)) [
    | inl y ↦ rw (n, y) refl
    | inr o ↦ elim (Bool-cases ((d == best.distance) && (start == 0))) [
      | inl y ↦ rw (n, o, y) refl
      | inr p ↦ rw (n, o, p) refl
    ]
  ]
]

module _ (name term : List ℕ) (tau : ℕ) where
  -- The distance is none yet, or a window's.
  unfoldable pub Attained : ℕ → Type 0
  Attained d = (d ≡ suc tau) ⊎ ((w : List ℕ) × Infix w name × (osa_distance w term ≡ d) × (d ≤ tau))

  -- What a round or more makes of the best distance.
  pub record Better (before after : Best) : Type 0 where
    pub attained : Attained before.distance → Attained after.distance
    pub least : after.distance ≤ before.distance

  abbrev pub price : ℕ → ℕ → ℕ
  price start width = capped tau (osa_distance (window name start width) term)

  pub consider-Better :
      (best : Best) (start width : ℕ)
      → let next =
          consider best start (damerau_levenshtein_bounded (window name start width) term tau) in
        Better best next × (next.distance ≤ price start width)
  unfolding Attained
  consider-Better best start width =
      let w = window name start width in
      let d = osa_distance w term in
      let found = damerau_levenshtein_bounded w term tau in
      let value : found ≡ capped tau d = damerau_levenshtein_bounded-osa w term tau in
      let result = consider_distance best start found in
      let next = (consider best start found).distance in
      elim (Bool-cases (ltb found best.distance)) [
        | inl y ↦
            let at : next ≡ found = result ∙ rw y refl in
            (
              record {
                attained = λ a. elim (Bool-cases (leb d tau)) [
                  | inl close ↦
                      let same : next ≡ d = at ∙ value ∙ rw close refl in
                      inr (w, window-Infix name start width, sym same, ground (arith, close, same))
                  | inr far ↦
                      let cut : next ≡ tau + 1 = at ∙ value ∙ rw far refl in
                      inl (omega (arith, cut))
                ];
                least = ground (arith, at, y);
              },
              omega (arith, at, value),
            )
        | inr n ↦
            let at : next ≡ best.distance = result ∙ rw n refl in
            (
              record { attained = λ a. subst Attained (sym at) a; least = omega (arith, at) },
              ground (arith, at, n, value),
            )
      ]

  pub Better-refl : (best : Best) → Better best best
  Better-refl best = record { attained = λ a. a; least = omega arith }

  pub Better-trans : (x y z : Best) → Better x y → Better y z → Better x z
  Better-trans x y z p q = record {
    attained = λ a. q.attained (p.attained a);
    least = omega (arith, p.least, q.least);
  }
