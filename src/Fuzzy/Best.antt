-- ===== src/Fuzzy/Best.antt =====
-- cmd/seekfs/fuzzy.go: `fuzzyNameDistance` finds the least distance of a window.
use seekfs.Common.{
  ℕ, zero, suc, ◌+◌, ◌-◌, ◌≤◌, ◌<◌, ◌≡◌, ◌⊎◌, refl, ap, subst, ◌∙◌, Bool-cases, true, false, inl,
  inr, List, ◌++◌, length, length-append, ltb, leb, ◌==◌, ==_iff, Infix, arith,
}
use seekfs.Fuzzy.Distance.{damerau_levenshtein_bounded}
use seekfs.Fuzzy.Alignment.{osa_bounds, osa_distance}
use seekfs.Fuzzy.Rows.{capped}
use seekfs.Fuzzy.Window.{
  Best, window, consider, width_loop, min_width, max_width, start_loop, starts, fuzzy_name_distance,
}
use seekfs.Fuzzy.Better.{
  window_of, Attained, Better, price, consider-Better, Better-refl, Better-trans,
}

module _ (name term : List ℕ) (tau : ℕ) where
  width_loop-Better :
      (rounds start width : ℕ) (best : Best)
      → Better name term tau best (width_loop name term tau rounds start width best)
        × ((k : ℕ)
            → width ≤ k
            → k < width + rounds
            → (width_loop name term tau rounds start width best).distance
              ≤ price name term tau start k)
  unfolding width_loop
  width_loop-Better zero start width best =
      (Better-refl name term tau best, λ k h l. absurd (omega (arith, h, l)))
  width_loop-Better (suc rounds) start width best =
      let d = damerau_levenshtein_bounded (window name start width) term tau in
      let next = consider best start d in
      let (step, here) = consider-Better name term tau best start width in
      elim (Bool-cases (next.distance == 0)) [
        | inl y ↦
            let none_less : next.distance ≡ 0 = (==_iff next.distance 0).0 y in
            rw (width_loop, y) (step, λ k h l. omega (arith, none_less))
        | inr n ↦
            let (later, there) = width_loop-Better rounds start (suc width) next in
            let after = width_loop name term tau rounds start (suc width) next in
            rw (width_loop, n)
              (
                Better-trans name term tau best next after step later,
                λ k h l. elim (Bool-cases (k == width)) [
                  | inl y ↦
                      let at : price name term tau start k ≡ price name term tau start width =
                        ap (price name term tau start) ((==_iff k width).0 y) in
                      omega (arith, at, here, later.least)
                  | inr o ↦ there k (ground (arith, h, o)) (omega (arith, l))
                ],
              )
      ]

  start_loop-Better :
      (rounds start : ℕ) (best : Best)
      → Better name term tau best (start_loop name term tau rounds start best)
        × ((s k : ℕ)
            → start ≤ s
            → s < start + rounds
            → min_width name term tau ≤ k
            → k ≤ max_width name term tau s
            → (start_loop name term tau rounds start best).distance ≤ price name term tau s k)
  unfolding start_loop
  start_loop-Better zero start best =
      (Better-refl name term tau best, λ s k h l. absurd (omega (arith, h, l)))
  start_loop-Better (suc rounds) start best =
      let low = min_width name term tau in
      let widths = suc (max_width name term tau start) - low in
      let next = width_loop name term tau widths start low best in
      let (step, here) = width_loop-Better widths start low best in
      elim (Bool-cases (next.distance == 0)) [
        | inl y ↦
            let none_less : next.distance ≡ 0 = (==_iff next.distance 0).0 y in
            rw (start_loop, y) (step, λ s k h l u v. omega (arith, none_less))
        | inr n ↦
            let (later, there) = start_loop-Better rounds (suc start) next in
            let after = start_loop name term tau rounds (suc start) next in
            rw (start_loop, n)
              (
                Better-trans name term tau best next after step later,
                λ s k h l u v. elim (Bool-cases (s == start)) [
                  | inl y ↦
                      let same = (==_iff s start).0 y in
                      let at : price name term tau s k ≡ price name term tau start k =
                        ap (λ z. price name term tau z k) same in
                      let top : k ≤ max_width name term tau start =
                        subst (λ z. k ≤ max_width name term tau z) same v in
                      let found = here k u (omega (arith, u, top)) in
                      omega (arith, at, found, later.least)
                  | inr o ↦ there s k (ground (arith, h, o)) (omega (arith, l)) u v
                ],
              )
      ]

  -- The best window of all.
  best_window : Best
  best_window =
      start_loop name term tau (starts name term tau) 0
        (record { distance = suc tau; prefix = false; start = length name })

  best-Attained : Attained name term tau best_window.distance
  unfolding best_window Attained
  best-Attained =
      (start_loop-Better (starts name term tau) 0
          (record { distance = suc tau; prefix = false; start = length name })).0.attained
        (inl refl)

  -- A window within the threshold is among those that are looked at.
  within :
      (w : List ℕ)
      → Infix w name
      → 0 < length w
      → osa_distance w term ≤ tau
      → best_window.distance ≤ osa_distance w term
  unfolding best_window
  within w i some_item close =
      let s = length i.0 in
      let k = length w in
      let lt = length term in
      let ln = length name in
      let apart = osa_bounds w term k lt in
      let size : ln ≡ s + (k + length i.1) =
        ap length i.2 ∙ length-append i.0 (w ++ i.1) ∙ ap (λ z. s + z) (length-append w i.1) in
      let started : s < starts name term tau = ground (arith, apart, size, close) in
      let wide : min_width name term tau ≤ k = ground (arith, apart, close, some_item) in
      let narrow : k ≤ max_width name term tau s = ground (arith, apart, close, size) in
      let found =
        (start_loop-Better (starts name term tau) 0
            (record { distance = suc tau; prefix = false; start = length name })).1
          s k (omega arith) (omega (arith, started)) wide narrow in
      let value : price name term tau s k ≡ capped tau (osa_distance w term) =
        ap (λ z. capped tau (osa_distance z term)) (window_of name w i) in
      ground (arith, found, value, close)

far_of : (d e tau : ℕ) → ltb tau d ≡ true → (e ≤ tau → d ≤ e) → tau < e
far_of d e tau y near = elim (Bool-cases (leb e tau)) [
  | inl c ↦ let h = near (ground (arith, c)) in ground (arith, h, y, c)
  | inr f ↦ ground (arith, f)
]

least_of : (d e tau : ℕ) → d ≤ tau → (e ≤ tau → d ≤ e) → d ≤ e
least_of d e tau close near = elim (Bool-cases (leb e tau)) [
  | inl c ↦ near (ground (arith, c))
  | inr f ↦ ground (arith, f, close)
]

-- A window of a name is a non-empty part of it. Either the search finds a distance that is not over the
-- threshold, is that of a window, and is not over that of the given one; or it finds none, and the given
-- window is over the threshold.
pub fuzzy_name_distance_lem :
    (name term : List ℕ) (tau : ℕ) (w : List ℕ)
    → Infix w name
    → 0 < length w
    → ((fuzzy_name_distance name term tau).3 ≡ true
        × ((fuzzy_name_distance name term tau).0 ≤ osa_distance w term)
        × ((fuzzy_name_distance name term tau).0 ≤ tau)
        × ((best : List ℕ) × Infix best name
            × (osa_distance best term ≡ (fuzzy_name_distance name term tau).0)))
      ⊎ ((fuzzy_name_distance name term tau).3 ≡ false × (tau < osa_distance w term))
unfolding fuzzy_name_distance best_window Attained
fuzzy_name_distance_lem name term tau w i some_item =
    let d = (best_window name term tau).distance in
    let near = within name term tau w i some_item in
    let size : length name ≡ length i.0 + (length w + length i.1) =
      ap length i.2
      ∙ length-append i.0 (w ++ i.1)
      ∙ ap (λ z. length i.0 + z) (length-append w i.1) in
    let some_name : (length name == 0) ≡ false = ground (arith, size, some_item) in
    elim (Bool-cases (ltb tau d)) [
      | inl y ↦ rw (some_name, y) (inr (refl, far_of d (osa_distance w term) tau y near))
      | inr n ↦ elim (best-Attained name term tau) [
        | inl none_found ↦ absurd (ground (arith, none_found, n))
        | inr (best, at, same, close) ↦
            rw (some_name, n)
              (inl (refl, least_of d (osa_distance w term) tau close near, close, (best, at, same)))
      ]
    ]
