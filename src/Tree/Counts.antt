-- ===== src/Tree/Counts.antt =====
-- cmd/seekfs/service_state.go: the counts of `buildCompactChildren` and their sums.
use seekfs.Common.{
  ℕ, zero, suc, ℤ, pos, negsuc, ◌+◌, ◌-◌, ◌^◌, ◌%◌, ◌≤◌, ◌<◌, ◌≡◌, refl, ap, subst, ◌∙◌, Bool,
  Bool-cases, Option-cases, false, ◌||◌, none, some, inl, inr, List, [], ◌∷◌, ◌++◌, length,
  length-set, get_or, set, get_or-set, ltb, leb, ◌==◌, ==_iff, if◌then◌else◌, arith,
}
use seekfs.Replay.Volume.{CompactRecord, no_record}
use seekfs.Tree.Children.{parent_of, count_loop, sum_loop}

module _ (records : List CompactRecord) where
  pub parent_below : (id p : ℕ) → parent_of records id ≡ some p → p < length records
  unfolding parent_of
  parent_below id p h = from_field (get_or records id no_record).parent h
    where
      from_field :
          (z : ℤ)
          → elim z [
            | pos q ↦ if leb (length records) q || q == id then none else some q
            | negsuc k ↦ none
          ]
            ≡ some p
          → p < length records
      from_field (pos q) e = ground (arith, e)
      from_field (negsuc k) e = absurd (ground (arith, e))

  -- The record has this parent.
  abbrev pub parent_is : ℕ → ℕ → Bool
  parent_is p id = elim (parent_of records id) [ none ↦ false | some q ↦ q == p ]

  -- The number of children below `m`, and that of all the parents below `p`.
  unfoldable pub kid_count : ℕ → ℕ → ℕ
  kid_count p zero = 0
  kid_count p (suc m) = kid_count p m + (if parent_is p m then 1 else 0)

  unfoldable pub offset : ℕ → ℕ → ℕ
  offset m zero = 0
  offset m (suc p) = offset m p + kid_count p m

  one_more : ℕ → ℕ → ℕ
  one_more p m = elim (parent_of records m) [ none ↦ 0 | some q ↦ if ltb q p then 1 else 0 ]

  -- What the parent of a record is says which counts it is in.
  pub parent_is-none : (m : ℕ) → parent_of records m ≡ none → (p : ℕ) → parent_is p m ≡ false
  parent_is-none m e p = rw (parent_is, e) refl

  pub parent_is-some : (m q : ℕ) → parent_of records m ≡ some q → (p : ℕ) → parent_is p m ≡ (q == p)
  parent_is-some m q e p = rw (parent_is, e) refl

  one_more-none : (m : ℕ) → parent_of records m ≡ none → (p : ℕ) → one_more p m ≡ 0
  unfolding one_more
  one_more-none m e p = rw (one_more, e) refl

  one_more-some :
      (m q : ℕ) → parent_of records m ≡ some q → (p : ℕ) → one_more p m ≡ (if ltb q p then 1 else 0)
  unfolding one_more
  one_more-some m q e p = rw (one_more, e) refl

  offset-suc : (m p : ℕ) → offset (suc m) p ≡ offset m p + one_more p m
  unfolding offset kid_count one_more
  offset-suc m zero = elim (Option-cases (parent_of records m)) [
    | inl e ↦ rw (one_more-none m e 0) (omega arith)
    | inr (q, e) ↦ rw (one_more-some m q e 0) (ground arith)
  ]
  offset-suc m (suc p) =
      let ih = offset-suc m p in
      elim (Option-cases (parent_of records m)) [
        | inl e ↦
            rw (one_more-none m e (suc p), parent_is-none m e p)
              (omega (arith, ih, one_more-none m e p))
        | inr (q, e) ↦
            rw (one_more-some m q e (suc p), parent_is-some m q e p)
              (ground (arith, ih, one_more-some m q e p))
      ]

  pub offset_bound : (m p : ℕ) → offset m p ≤ m
  unfolding offset kid_count
  offset_bound zero p = no_kids p
    where
      no_kids : (p : ℕ) → offset 0 p ≤ 0
      no_kids zero = omega arith
      no_kids (suc p) = omega (arith, no_kids p)
  offset_bound (suc m) p = let ih = offset_bound m p in omega (arith, ih, offset-suc m p, at_most p)
    where
      at_most : (p : ℕ) → one_more p m ≤ 1
      at_most p = elim (Option-cases (parent_of records m)) [
        | inl e ↦ omega (arith, one_more-none m e p)
        | inr (q, e) ↦ ground (arith, one_more-some m q e p)
      ]

  -- All the records with a parent are counted.
  pub offset-all_none :
      (m : ℕ)
      → parent_of records m ≡ none
      → offset (suc m) (length records) ≡ offset m (length records)
  offset-all_none m e =
      omega (arith, offset-suc m (length records), one_more-none m e (length records))

  pub offset-all_some :
      (m q : ℕ)
      → parent_of records m ≡ some q
      → offset (suc m) (length records) ≡ suc (offset m (length records))
  offset-all_some m q e = ground (
    arith,
    offset-suc m (length records),
    one_more-some m q e (length records),
    parent_below m q e,
  )

  pub offset_least : (m p q : ℕ) → p ≤ q → offset m p ≤ offset m q
  unfolding offset
  offset_least m p zero h = let z : p ≡ 0 = omega (arith, h) in rw z (omega arith)
  offset_least m p (suc q) h = elim (Bool-cases (p == suc q)) [
    | inl y ↦ rw ((==_iff p (suc q)).0 y) (omega arith)
    | inr n ↦ omega (arith, offset_least m p q (ground (arith, h, n)))
  ]

  pub kid_count_bound : (p m : ℕ) → kid_count p m ≤ m
  unfolding offset
  kid_count_bound p m = omega (arith, offset_bound m (suc p))

  pub record Counted (m : ℕ) (counts : List ℕ) (total : ℕ) : Type 0 where
    pub counts_length : length counts ≡ suc (length records)
    pub first : get_or counts 0 0 ≡ 0
    pub others : (p : ℕ) → p < length records → get_or counts (suc p) 0 ≡ kid_count p m
    pub all : total ≡ offset m (length records)

  pub count_loop-Counted :
      length records < 2 ^ 32
      → (rounds id : ℕ) (counts roots : List ℕ) (total : ℕ) → id + rounds ≡ length records
      → Counted id counts total
      → Counted
          (length records)
          (count_loop records rounds id counts roots total).0
          (count_loop records rounds id counts roots total).2
  unfolding count_loop kid_count
  count_loop-Counted small zero id counts roots total h c =
      subst (λ m. Counted m counts total) (omega (arith, h)) c
  count_loop-Counted small (suc rounds) id counts roots total h c =
      elim (Option-cases (parent_of records id)) [
        | inl e ↦
            let is = parent_is-none id e in
            let kept : List ℕ =
              if (get_or records id no_record).deleted then roots else roots ++ (id ∷ []) in
            rw (count_loop, e)
              (count_loop-Counted small rounds (suc id) counts kept total (omega (arith, h))
                (record {
                  counts_length = c.counts_length;
                  first = c.first;
                  others = λ p b. rw (is p) (omega (arith, c.others p b));
                  all = omega (arith, c.all, offset-all_none id e);
                }))
        | inr (q, e) ↦
            let is = parent_is-some id q e in
            let b = parent_below id q e in
            let old = c.others q b in
            let fits : (get_or counts (suc q) 0 + 1) % 2 ^ 32 ≡ kid_count q id + 1 =
              omega (arith, old, kid_count_bound q id, small, h) in
            rw (count_loop, e)
              (count_loop-Counted small rounds (suc id)
                (set counts (suc q) ((get_or counts (suc q) 0 + 1) % 2 ^ 32)) roots (suc total)
                (omega (arith, h))
                (record {
                  counts_length =
                      length-set counts (suc q) ((get_or counts (suc q) 0 + 1) % 2 ^ 32)
                      ∙ c.counts_length;
                  first = ground (
                    arith,
                    get_or-set counts (suc q) ((get_or counts (suc q) 0 + 1) % 2 ^ 32) 0 0,
                    c.first,
                  );
                  others = λ p l. rw (is p) (elim (Bool-cases (q == p)) [
                    | inl y ↦
                        let same : q ≡ p = (==_iff q p).0 y in
                        ground (
                          arith,
                          get_or-set counts (suc q) ((get_or counts (suc q) 0 + 1) % 2 ^ 32) (suc p)
                              0,
                          fits,
                          same,
                          c.counts_length,
                          b,
                          ap (λ z. kid_count z id) same,
                        )
                    | inr n ↦ ground (
                      arith,
                      get_or-set counts (suc q) ((get_or counts (suc q) 0 + 1) % 2 ^ 32) (suc p) 0,
                      n,
                      c.others p l,
                    )
                  ]);
                  all = omega (arith, c.all, offset-all_some id q e);
                }))
      ]

  -- The counts up to a place are summed, those behind it not.
  pub record Summed (h : ℕ) (counts : List ℕ) : Type 0 where
    pub counts_length : length counts ≡ suc (length records)
    pub sums : (p : ℕ) → p ≤ h → get_or counts p 0 ≡ offset (length records) p
    pub raw :
        (p : ℕ)
        → h ≤ p
        → p < length records
        → get_or counts (suc p) 0 ≡ kid_count p (length records)

  pub sum_loop-Summed :
      length records < 2 ^ 32
      → (rounds h : ℕ) (counts : List ℕ) → h + rounds ≡ length records
      → Summed h counts
      → Summed (length records) (sum_loop rounds (suc h) counts)
  unfolding sum_loop offset
  sum_loop-Summed small zero h counts l c = subst (λ m. Summed m counts) (omega (arith, l)) c
  sum_loop-Summed small (suc rounds) h counts l c =
      let v = (get_or counts (suc h) 0 + get_or counts (suc h - 1) 0) % 2 ^ 32 in
      let before : suc h - 1 ≡ h = omega arith in
      let old : get_or counts (suc h - 1) 0 ≡ offset (length records) h =
        rw before (c.sums h (omega arith)) in
      let now : v ≡ offset (length records) (suc h) = omega (
        arith,
        old,
        c.raw h (omega arith) (omega (arith, l)),
        offset_bound (length records) (suc h),
        small,
      ) in
      let cell : get_or (set counts (suc h) v) (suc h) 0 ≡ v =
        ground (arith, get_or-set counts (suc h) v (suc h) 0, c.counts_length, l) in
      sum_loop-Summed small rounds (suc h) (set counts (suc h) v) (omega (arith, l)) (record {
        counts_length = length-set counts (suc h) v ∙ c.counts_length;
        sums = λ p b. elim (Bool-cases (p == suc h)) [
          | inl y ↦ rw ((==_iff p (suc h)).0 y) (cell ∙ now)
          | inr n ↦
              ground (arith, get_or-set counts (suc h) v p 0, n, b, c.sums p (ground (arith, n, b)))
        ];
        raw = λ p b k.
            ground (arith, get_or-set counts (suc h) v (suc p) 0, b, c.raw p (omega (arith, b)) k);
      })
