-- ===== src/Tree/Built.antt =====
-- cmd/seekfs/service_state.go: what `buildCompactChildren` leaves, against the parents of the records.
use seekfs.Common.{
  ℕ, zero, suc, ◌+◌, ◌-◌, ◌^◌, ◌<◌, ◌≡◌, refl, sym, ap, subst, ◌∙◌, Option-cases, none, some, inl,
  inr, List, [], ◌∷◌, ◌++◌, length, length-drop, length-take, get_or, set, ◌%◌, get_or-take,
  get_or-drop, get_or-ext, get_or-replicate, length-replicate, replicate, take, drop, if◌then◌else◌,
  arith,
}
use seekfs.Replay.Volume.{CompactRecord, no_record}
use seekfs.Tree.Children.{parent_of, count_loop, sum_loop, fill_loop}
use seekfs.Tree.Counts.{
  kid_count, offset, offset_bound, offset_least, Counted, count_loop-Counted, Summed,
  sum_loop-Summed,
}
use seekfs.Tree.Filled.{kids, length-kids, Filled, fill_loop-Filled}

module _ (records : List CompactRecord) where
  -- The records below `m` that are not deleted and have no parent.
  abbrev pub tops : ℕ → List ℕ
  tops zero = []
  tops (suc m) = elim (parent_of records m) [
    | none ↦ if (get_or records m no_record).deleted then tops m else tops m ++ (m ∷ [])
    | some p ↦ tops m
  ]

  pub count_loop-tops :
      (rounds id : ℕ) (counts : List ℕ) (total : ℕ)
      → (count_loop records rounds id counts (tops id) total).1 ≡ tops (id + rounds)
  unfolding count_loop
  count_loop-tops zero id counts total = ap tops (omega arith)
  count_loop-tops (suc rounds) id counts total =
      let e : id + suc rounds ≡ suc id + rounds = omega arith in
      elim (Option-cases (parent_of records id)) [
        | inl n ↦
            let own : tops (suc id) ≡ (
                if (get_or records id no_record).deleted then tops id else tops id ++ (id ∷ [])) =
              rw (tops, n) refl in
            rw (count_loop, n, e)
              (subst
                (λ rs.
                  (count_loop records rounds (suc id) counts rs total).1 ≡ tops (suc id + rounds))
                own (count_loop-tops rounds (suc id) counts total))
        | inr (p, n) ↦
            let own : tops (suc id) ≡ tops id = rw (tops, n) refl in
            let more = set counts (suc p) ((get_or counts (suc p) 0 + 1) % 2 ^ 32) in
            rw (count_loop, n, e)
              (subst
                (λ rs.
                  (count_loop records rounds (suc id) more rs (suc total)).1
                  ≡ tops (suc id + rounds))
                own (count_loop-tops rounds (suc id) more (suc total)))
      ]

  module _ (small : length records < 2 ^ 32) where
    abbrev n : ℕ
    n = length records

    abbrev pub counted : List ℕ × List ℕ × ℕ
    counted = count_loop records n 0 (replicate (suc n) 0) [] 0

    no_kids : (p : ℕ) → kid_count records p 0 ≡ 0
    unfolding kid_count
    no_kids p = refl

    pub counted_lem : Counted records n counted.0 counted.2
    counted_lem =
        count_loop-Counted records small n 0 (replicate (suc n) 0) [] 0 (omega arith) (record {
          counts_length = length-replicate (suc n) 0;
          first = refl;
          others = λ p b. get_or-replicate n 0 p ∙ sym (no_kids p);
          all = omega (arith, offset_bound records 0 n);
        })

    abbrev pub offsets : List ℕ
    offsets = sum_loop n 1 counted.0

    pub offsets_lem : Summed records n offsets
    unfolding offset
    offsets_lem = sum_loop-Summed records small n 0 counted.0 (omega arith) (record {
      counts_length = counted_lem.counts_length;
      sums = λ p b. let z : p ≡ 0 = omega (arith, b) in rw z counted_lem.first;
      raw = λ p b l. counted_lem.others p l;
    })

    abbrev pub filled : List ℕ
    filled = fill_loop records n 0 (take n offsets) (replicate counted.2 0)

    pub filled_lem : (last : List ℕ) × Filled records n last filled
    filled_lem =
        fill_loop-Filled records small n 0 (take n offsets) (replicate counted.2 0) (omega arith)
          (record {
            child_length = length-replicate counted.2 0 ∙ counted_lem.all;
            next_length = length-take n offsets (omega (arith, offsets_lem.counts_length));
            places = λ p b.
                get_or-take n offsets p 0 b
                ∙ offsets_lem.sums p (omega (arith, b))
                ∙ omega (arith, no_kids p);
            put = λ p j b k. absurd (omega (arith, k, no_kids p));
          })

    pub part_kids :
        (p : ℕ)
        → p < n
        → take (offset records n (suc p) - offset records n p) (drop (offset records n p) filled)
          ≡ kids records p n
    unfolding offset
    part_kids p b =
        let f = filled_lem.1 in
        let total = f.child_length in
        let end = offset_least records n (suc p) n b in
        let width : offset records n p + kid_count records p n - offset records n p
            ≡ kid_count records p n =
          omega arith in
        let long : length (take (kid_count records p n) (drop (offset records n p) filled))
            ≡ kid_count records p n =
          length-take (kid_count records p n) (drop (offset records n p) filled)
            (omega (arith, length-drop (offset records n p) filled, total, end)) in
        rw width (
          get_or-ext (take (kid_count records p n) (drop (offset records n p) filled))
            (kids records p n) 0 (long ∙ sym (length-kids records p n))
            (λ i k.
              let l : i < kid_count records p n = omega (arith, k, long) in
              get_or-take (kid_count records p n) (drop (offset records n p) filled) i 0 l
              ∙ get_or-drop (offset records n p) filled i 0
              ∙ f.put p i b l))
