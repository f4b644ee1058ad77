-- ===== src/Tree/Filled.antt =====
-- cmd/seekfs/service_state.go: the children that `buildCompactChildren` writes.
use seekfs.Common.{
  ℕ, zero, suc, ◌+◌, ◌^◌, ◌%◌, ◌≤◌, ◌<◌, ◌≡◌, refl, sym, ap, subst, ◌∙◌, Bool-cases, Option-cases,
  true, false, some, inl, inr, List, [], ◌∷◌, ◌++◌, length, length-append, length-set, get_or, set,
  get_or-set, get_or_before, get_or_behind, ltb, ◌==◌, ==_iff, if◌then◌else◌, arith,
}
use seekfs.Replay.Volume.{CompactRecord}
use seekfs.Tree.Children.{parent_of, fill_loop}
use seekfs.Tree.Counts.{
  parent_below, parent_is, parent_is-none, parent_is-some, kid_count, offset, offset_bound,
  offset_least,
}

module _ (records : List CompactRecord) where
  -- The children of a record among the records below `m`.
  abbrev pub kids : ℕ → ℕ → List ℕ
  kids p zero = []
  kids p (suc m) = if parent_is records p m then kids p m ++ (m ∷ []) else kids p m

  pub length-kids : (p m : ℕ) → length (kids p m) ≡ kid_count records p m
  unfolding kid_count
  length-kids p zero = refl
  length-kids p (suc m) = elim (Bool-cases (parent_is records p m)) [
    | inl y ↦ rw y (omega (arith, length-kids p m, length-append (kids p m) (m ∷ [])))
    | inr n ↦ rw n (omega (arith, length-kids p m))
  ]

  pub kid_count_least : (p m k : ℕ) → m ≤ k → kid_count records p m ≤ kid_count records p k
  unfolding kid_count
  kid_count_least p m zero h = let z : m ≡ 0 = omega (arith, h) in rw z (omega arith)
  kid_count_least p m (suc k) h = elim (Bool-cases (m == suc k)) [
    | inl y ↦ rw ((==_iff m (suc k)).0 y) (omega arith)
    | inr n ↦ omega (arith, kid_count_least p m k (ground (arith, h, n)))
  ]

  n : ℕ
  n = length records

  -- The places of the children of one parent end where those of the next begin.
  within :
      (p q m j : ℕ)
      → p < q
      → m ≤ n
      → j < kid_count records p m
      → offset records n p + j < offset records n q
  unfolding offset
  within p q m j h l b =
      omega (arith, b, kid_count_least p m n l, offset_least records n (suc p) q (omega (arith, h)))

  pub record Filled (m : ℕ) (next child_ids : List ℕ) : Type 0 where
    pub child_length : length child_ids ≡ offset records (length records) (length records)
    pub next_length : length next ≡ length records
    pub places :
        (p : ℕ)
        → p < length records
        → get_or next p 0 ≡ offset records (length records) p + kid_count records p m
    pub put :
        (p j : ℕ)
        → p < length records
        → j < kid_count records p m
        → get_or child_ids (offset records (length records) p + j) 0 ≡ get_or (kids p m) j 0

  module _ (small : length records < 2 ^ 32) (id q : ℕ) (next child_ids : List ℕ)
      (e : parent_of records id ≡ some q) (l : id < length records)
      (f : Filled id next child_ids) where
    place : ℕ
    place = get_or next q 0

    own_kid : (p : ℕ) → parent_is records p id ≡ (q == p)
    own_kid = parent_is-some records id q e

    place_lem : place ≡ offset records n q + kid_count records q id
    unfolding place n
    place_lem = f.places q (parent_below records id q e)

    counted : kid_count records q id < kid_count records q (suc id)
    unfolding kid_count
    counted = ground (arith, own_kid q)

    place_within : place < length child_ids
    unfolding n
    place_within = omega (
      arith,
      place_lem,
      f.child_length,
      within q n (suc id) (kid_count records q id) (parent_below records id q e) (omega (arith, l))
          counted,
    )

    put_other :
        (p j : ℕ)
        → (q == p) ≡ false
        → p < length records
        → j < kid_count records p id
        → get_or (set child_ids place (id % 2 ^ 32)) (offset records n p + j) 0
          ≡ get_or child_ids (offset records n p + j) 0
    unfolding n
    put_other p j o b k =
        let apart : ((offset records n p + j) == place) ≡ false = elim (Bool-cases (ltb p q)) [
          | inl y ↦
              ground (arith, place_lem, within p q id j (ground (arith, y)) (omega (arith, l)) k)
          | inr x ↦ ground (
            arith,
            place_lem,
            within q p (suc id) (kid_count records q id) (ground (arith, x, o)) (omega (arith, l))
                counted,
          )
        ] in
        ground (arith, get_or-set child_ids place (id % 2 ^ 32) (offset records n p + j) 0, apart)

    next_own :
        get_or (set next q ((place + 1) % 2 ^ 32)) q 0
        ≡ offset records n q + (kid_count records q id + 1)
    unfolding n
    next_own =
        let fits : (place + 1) % 2 ^ 32 ≡ place + 1 =
          omega (arith, place_within, f.child_length, offset_bound records n n, small) in
        ground (
          arith,
          get_or-set next q ((place + 1) % 2 ^ 32) q 0,
          f.next_length,
          parent_below records id q e,
          place_lem,
          fits,
        )

    put_own :
        (j : ℕ)
        → j < kid_count records q id + 1
        → get_or (set child_ids place (id % 2 ^ 32)) (offset records n q + j) 0
          ≡ get_or (kids q id ++ (id ∷ [])) j 0
    unfolding n
    put_own j k = elim (Bool-cases (j == kid_count records q id)) [
      | inl y ↦
          let last : j ≡ length (kids q id) + 0 =
            omega (arith, (==_iff j (kid_count records q id)).0 y, length-kids q id) in
          let there : offset records n q + j ≡ place =
            omega (arith, (==_iff j (kid_count records q id)).0 y, place_lem) in
          let fits : id % 2 ^ 32 ≡ id = omega (arith, l, small) in
          let cell : get_or (set child_ids place (id % 2 ^ 32)) place 0 ≡ id =
            ground (arith, get_or-set child_ids place (id % 2 ^ 32) place 0, place_within, fits) in
          rw there (
            cell
            ∙ sym (
                ap (λ i. get_or (kids q id ++ (id ∷ [])) i 0) last
                ∙ get_or_behind (kids q id) (id ∷ []) 0 0))
      | inr o ↦
          let less : j < kid_count records q id = ground (arith, k, o) in
          let apart : ((offset records n q + j) == place) ≡ false = ground (arith, place_lem, o) in
          let kept : get_or (set child_ids place (id % 2 ^ 32)) (offset records n q + j) 0
              ≡ get_or child_ids (offset records n q + j) 0 =
            ground
              (arith, get_or-set child_ids place (id % 2 ^ 32) (offset records n q + j) 0, apart) in
          kept
          ∙ f.put q j (parent_below records id q e) less
          ∙ sym (get_or_before (kids q id) (id ∷ []) j 0 (omega (arith, less, length-kids q id)))
    ]

    fill-Filled :
        Filled (suc id) (set next q ((place + 1) % 2 ^ 32)) (set child_ids place (id % 2 ^ 32))
    unfolding n kid_count
    fill-Filled = record {
      child_length = length-set child_ids place (id % 2 ^ 32) ∙ f.child_length;
      next_length = length-set next q ((place + 1) % 2 ^ 32) ∙ f.next_length;
      places = λ p b. rw (own_kid p) (elim (Bool-cases (q == p)) [
        | inl y ↦ rw y (
            subst
              (λ z.
                get_or (set next q ((place + 1) % 2 ^ 32)) z 0
                ≡ offset records n z + (kid_count records z id + 1))
              ((==_iff q p).0 y) next_own)
        | inr o ↦ ground (arith, get_or-set next q ((place + 1) % 2 ^ 32) p 0, o, f.places p b)
      ]);
      put = λ p j b k. elim (Bool-cases (q == p)) [
        | inl y ↦
            let it_is : parent_is records p id ≡ true = own_kid p ∙ y in
            rw it_is (
              subst
                (λ z.
                  j < kid_count records z id + 1
                  → get_or (set child_ids place (id % 2 ^ 32)) (offset records n z + j) 0
                    ≡ get_or (kids z id ++ (id ∷ [])) j 0)
                ((==_iff q p).0 y) (put_own j) (ground (arith, k, it_is)))
        | inr o ↦
            let not_it : parent_is records p id ≡ false = own_kid p ∙ o in
            rw (not_it) (
              put_other p j o b (ground (arith, k, not_it))
              ∙ f.put p j b (ground (arith, k, not_it)))
      ];
    }

  pub fill_loop-Filled :
      length records < 2 ^ 32
      → (rounds id : ℕ) (next child_ids : List ℕ) → id + rounds ≡ length records
      → Filled id next child_ids
      → (last : List ℕ) × Filled (length records) last (fill_loop records rounds id next child_ids)
  unfolding fill_loop place kid_count
  fill_loop-Filled small zero id next child_ids h f =
      (next, subst (λ m. Filled m next child_ids) (omega (arith, h)) f)
  fill_loop-Filled small (suc rounds) id next child_ids h f =
      elim (Option-cases (parent_of records id)) [
        | inl e ↦
            let none_own = parent_is-none records id e in
            rw (fill_loop, e)
              (fill_loop-Filled small rounds (suc id) next child_ids (omega (arith, h)) (record {
                child_length = f.child_length;
                next_length = f.next_length;
                places = λ p b. rw (none_own p) (omega (arith, f.places p b));
                put = λ p j b k.
                    let same : kid_count records p (suc id) ≡ kid_count records p id =
                      ground (arith, none_own p) in
                    rw (none_own p) (f.put p j b (omega (arith, k, same)));
              }))
        | inr (q, e) ↦
            rw (fill_loop, e)
              (fill_loop-Filled small rounds (suc id) (set next q ((get_or next q 0 + 1) % 2 ^ 32))
                (set child_ids (get_or next q 0) (id % 2 ^ 32)) (omega (arith, h))
                (fill-Filled small id q next child_ids e (omega (arith, h)) f))
      ]
