-- ===== src/Trigram/KeyLaws.antt =====
-- cmd/seekfs/trigram_index.go: the four lists of keys of a text against each other and against the places.
use seekfs.Common.{
  ℕ, zero, suc, ◌+◌, ◌≤◌, ◌<◌, ◌≡◌, refl, sym, ap, subst, ◌∙◌, Bool-cases, true, false, ◌||◌, inl,
  inr, List, [], ◌∷◌, ◌++◌, map, length, get_or, ltb, ◌==◌, ==_iff, fold_ascii, arith, if_rule, ◌⊎◌,
}
use seekfs.Replay.BaseIds.{member, member-append, Distinct, Distinct-append}
use seekfs.Trigram.Keys.{
  fixed_gram_key, fixed_gram_key_fold_ascii, seen_loop, append_loop, no_gram_size, places,
  unique_fixed_gram_keys, unique_fixed_gram_keys_fold_ascii, append_unique_fixed_gram_keys,
  append_unique_fixed_gram_keys_fold_ascii,
}

module _ (key : ℕ → ℕ) where
  -- The keys at the places from `i`, each as often as it stands there.
  abbrev pub key_list : ℕ → ℕ → List ℕ
  key_list zero i = []
  key_list (suc rounds) i = key i ∷ key_list rounds (suc i)

  pub seen_loop-append_loop :
      (rounds i : ℕ) (seen out : List ℕ)
      → ((k : ℕ) → member k seen ≡ member k out)
      → seen_loop key rounds i seen out ≡ append_loop key rounds i out
  unfolding seen_loop append_loop
  seen_loop-append_loop zero i seen out h = refl
  seen_loop-append_loop (suc rounds) i seen out h = elim (Bool-cases (member (key i) out)) [
    | inl y ↦ rw (h (key i), y) (seen_loop-append_loop rounds (suc i) seen out h)
    | inr n ↦
        rw (h (key i), n)
          (seen_loop-append_loop rounds (suc i) (key i ∷ seen) (out ++ (key i ∷ []))
            (λ k. ground (arith, h k, member-append out (key i ∷ []) k)))
  ]

  pub member-append_loop :
      (rounds i : ℕ) (dst : List ℕ) (k : ℕ)
      → member k (append_loop key rounds i dst) ≡ (member k dst || member k (key_list rounds i))
  unfolding append_loop
  member-append_loop zero i dst k = ground arith
  member-append_loop (suc rounds) i dst k = elim (Bool-cases (member (key i) dst)) [
    | inl y ↦
        let ih = member-append_loop rounds (suc i) dst k in
        elim (Bool-cases (k == key i)) [
          | inl e ↦
              let at : member k dst ≡ true = rw ((==_iff k (key i)).0 e) y in
              rw y (ground (arith, ih, at, e))
          | inr e ↦ rw y (ground (arith, ih, e))
        ]
    | inr n ↦ rw n (
        ground (
          arith,
          member-append_loop rounds (suc i) (dst ++ (key i ∷ [])) k,
          member-append dst (key i ∷ []) k,
        ))
  ]

  pub append_loop-Distinct :
      (rounds i : ℕ) (dst : List ℕ) → Distinct dst → Distinct (append_loop key rounds i dst)
  unfolding append_loop
  append_loop-Distinct zero i dst d = d
  append_loop-Distinct (suc rounds) i dst d = elim (Bool-cases (member (key i) dst)) [
    | inl y ↦ rw y (append_loop-Distinct rounds (suc i) dst d)
    | inr n ↦ rw n (
        append_loop-Distinct rounds (suc i) (dst ++ (key i ∷ [])) (Distinct-append dst (key i) d n))
  ]

  -- A key of the list stands at a place.
  pub place_of :
      (rounds i k : ℕ)
      → member k (key_list rounds i) ≡ true
      → (j : ℕ) × (j < rounds) × (k ≡ key (j + i))
  place_of zero i k h = absurd (ground (arith, h))
  place_of (suc rounds) i k h = elim (Bool-cases (k == key i)) [
    | inl e ↦ (0, omega arith, (==_iff k (key i)).0 e ∙ ap key (omega arith))
    | inr e ↦
        let (j, l, s) = place_of rounds (suc i) k (ground (arith, h, e)) in
        (suc j, omega (arith, l), s ∙ ap key (omega arith))
  ]

  pub at_place : (rounds i j : ℕ) → j < rounds → member (key (j + i)) (key_list rounds i) ≡ true
  at_place zero i j h = absurd (omega (arith, h))
  at_place (suc rounds) i zero h =
      let z : 0 + i ≡ i = omega arith in
      let e : (key i == key i) ≡ true = ground arith in rw (z, e) refl
  at_place (suc rounds) i (suc j) h =
      let e : j + suc i ≡ suc j + i = omega arith in
      let rest : member (key (suc j + i)) (key_list rounds (suc i)) ≡ true =
        subst (λ p. member (key p) (key_list rounds (suc i)) ≡ true) e
          (at_place rounds (suc i) j (omega (arith, h))) in
      ground (arith, rest)

seen_loop-ext :
    (key other : ℕ → ℕ)
    → ((i : ℕ) → key i ≡ other i)
    → (rounds i : ℕ) (seen out : List ℕ)
    → seen_loop key rounds i seen out ≡ seen_loop other rounds i seen out
unfolding seen_loop
seen_loop-ext key other e zero i seen out = refl
seen_loop-ext key other e (suc rounds) i seen out =
    let taken = seen_loop-ext key other e rounds (suc i) seen out in
    let fresh = seen_loop-ext key other e rounds (suc i) (other i ∷ seen) (out ++ (other i ∷ [])) in
    rw (e i, taken, fresh) refl

length-map : (f : ℕ → ℕ) (s : List ℕ) → length (map f s) ≡ length s
length-map f [] = refl
length-map f (x ∷ s) = ap suc (length-map f s)

get_or-map : (f : ℕ → ℕ) (s : List ℕ) (i : ℕ) → f 0 ≡ 0 → get_or (map f s) i 0 ≡ f (get_or s i 0)
get_or-map f [] i z = sym z
get_or-map f (x ∷ s) zero z = refl
get_or-map f (x ∷ s) (suc i) z = get_or-map f s i z

fold_key :
    (s : List ℕ) (i n : ℕ) → fixed_gram_key (map fold_ascii s) i n ≡ fixed_gram_key_fold_ascii s i n
unfolding fixed_gram_key fixed_gram_key_fold_ascii fold_ascii
fold_key s i n =
    rw
      (
        get_or-map fold_ascii s i refl,
        get_or-map fold_ascii s (i + 1) refl,
        get_or-map fold_ascii s (i + 2) refl,
        get_or-map fold_ascii s (i + 3) refl,
      )
      refl

-- The appended keys are the unique ones, and those of a folded text are the folded keys.
pub append_unique_fixed_gram_keys_unique :
    (dst s : List ℕ) (n : ℕ) → append_unique_fixed_gram_keys dst s n ≡ unique_fixed_gram_keys s n
unfolding append_unique_fixed_gram_keys unique_fixed_gram_keys
append_unique_fixed_gram_keys_unique dst s n =
    let loops =
      seen_loop-append_loop (λ i. fixed_gram_key s i n) (places s n) 0 [] [] (λ k. refl) in
    rw loops (ground arith)

pub append_unique_fixed_gram_keys_fold_ascii-fold :
    (dst s : List ℕ) (n : ℕ)
    → append_unique_fixed_gram_keys_fold_ascii dst s n ≡ unique_fixed_gram_keys_fold_ascii s n
unfolding append_unique_fixed_gram_keys_fold_ascii unique_fixed_gram_keys_fold_ascii
append_unique_fixed_gram_keys_fold_ascii-fold dst s n =
    let loops =
      seen_loop-append_loop (λ i. fixed_gram_key_fold_ascii s i n) (places s n) 0 [] []
        (λ k. refl) in
    rw loops (ground arith)

pub unique_fixed_gram_keys_fold_ascii-map :
    (s : List ℕ) (n : ℕ)
    → unique_fixed_gram_keys_fold_ascii s n ≡ unique_fixed_gram_keys (map fold_ascii s) n
unfolding unique_fixed_gram_keys_fold_ascii unique_fixed_gram_keys
unique_fixed_gram_keys_fold_ascii-map s n =
    let same =
      seen_loop-ext (λ i. fixed_gram_key (map fold_ascii s) i n)
        (λ i. fixed_gram_key_fold_ascii s i n) (λ i. fold_key s i n) (places s n) 0 [] [] in
    rw (length-map fold_ascii s, same) (ground arith)

-- No key stands twice.
pub unique_fixed_gram_keys-Distinct : (s : List ℕ) (n : ℕ) → Distinct (unique_fixed_gram_keys s n)
unfolding append_unique_fixed_gram_keys
unique_fixed_gram_keys-Distinct s n = subst Distinct (append_unique_fixed_gram_keys_unique [] s n) (
    if_rule Distinct (no_gram_size n || ltb (length s) n) (λ e. tt)
      (λ e. append_loop-Distinct (λ i. fixed_gram_key s i n) (places s n) 0 [] tt))

-- The text has the key at some place.
abbrev pub HasKey : List ℕ → ℕ → ℕ → Type 0
HasKey s n k = (i : ℕ) × (i + n ≤ length s) × (k ≡ fixed_gram_key s i n)

abbrev pub GramSize : ℕ → Type 0
GramSize n = (n ≡ 3) ⊎ (n ≡ 4)

no_gram_size_lem : (n : ℕ) → no_gram_size n ≡ false → GramSize n
no_gram_size_lem n h = elim (Bool-cases (n == 3)) [
  | inl q ↦ inl ((==_iff n 3).0 q)
  | inr q ↦ inr ((==_iff n 4).0 (ground (arith, q, h)))
]

module _ (s : List ℕ) (n k : ℕ) where
  pub key_found : member k (unique_fixed_gram_keys s n) ≡ true → GramSize n × HasKey s n k
  unfolding append_unique_fixed_gram_keys
  key_found = rw (sym (append_unique_fixed_gram_keys_unique [] s n)) (
      if_rule (λ ks. member k ks ≡ true → GramSize n × HasKey s n k)
        (no_gram_size n || ltb (length s) n) (λ stop h. absurd (ground (arith, h)))
        (λ go h.
          let key : ℕ → ℕ = λ i. fixed_gram_key s i n in
          let at = sym (member-append_loop key (places s n) 0 [] k) ∙ h in
          let (i, l, e) = place_of key (places s n) 0 k at in
          (
            no_gram_size_lem n (ground (arith, go)),
            (i, omega (arith, l), e ∙ ap key (omega arith)),
          )))

  pub key_there : GramSize n → HasKey s n k → member k (unique_fixed_gram_keys s n) ≡ true
  unfolding append_unique_fixed_gram_keys
  key_there g (i, l, e) = rw (sym (append_unique_fixed_gram_keys_unique [] s n)) (
      if_rule (λ ks. member k ks ≡ true) (no_gram_size n || ltb (length s) n)
        (λ stop.
          absurd
            (elim g [ inl q ↦ ground (arith, q, stop, l) | inr q ↦ ground (arith, q, stop, l) ]))
        (λ go.
          let key : ℕ → ℕ = λ i. fixed_gram_key s i n in
          let at = at_place key (places s n) 0 i (omega (arith, l)) in
          let here : k ≡ key (i + 0) = e ∙ ap key (omega arith) in
          rw here (member-append_loop key (places s n) 0 [] (key (i + 0)) ∙ at)))
