-- ===== src/Trigram/Segment.antt =====
-- cmd/seekfs/trigram_index.go: what `segmentCandidateIDs` finds in a segment that was built.
use seekfs.Common.{
  ℕ, ◌≡◌, refl, sym, ap, ◌∙◌, Bool, Bool-cases, true, false, inl, inr, List, [], ◌∷◌, length,
  filter, All, All-filter, All-map_pred, ◌==◌, ==_iff, arith,
}
use seekfs.Packed.Search.{Increasing}
use seekfs.Replay.BaseIds.{member}
use seekfs.Delta.Defs.{decode_delta_uvarint32}
use seekfs.Sorted.Defs.{intersect_sorted_ints}
use seekfs.Sorted.Intersect.{intersect_sorted_ints_lem}
use seekfs.Trigram.Index.{TrigramSegment, has_all_postings, intersect_grams, segment_candidate_ids}
use seekfs.Trigram.Kept.{
  every, filter-Increasing, filter-filter, filter_same, filter_narrow, member-filter, own_members,
  filter_nothing_off,
}

pub empty_list : (xs : List ℕ) → length xs ≡ 0 → xs ≡ []
empty_list [] h = refl
empty_list (x ∷ xs) h = absurd (omega (arith, h))

module _ (all : List ℕ) (has : ℕ → ℕ → Bool) (segment : TrigramSegment) (inc : Increasing all)
    (posted : (k : ℕ) → decode_delta_uvarint32 (segment.postings k).encoded ≡ filter (has k) all)
    (counted : (k : ℕ) → (segment.postings k).count ≡ length (filter (has k) all)) where
  has_all : List ℕ → ℕ → Bool
  has_all grams id = every (λ g. has g id) grams

  -- One gram more keeps those that have it.
  kept_step :
      (gram : ℕ) (c : List ℕ)
      → Increasing c
      → All (λ x. member x all ≡ true) c
      → intersect_sorted_ints c (decode_delta_uvarint32 (segment.postings gram).encoded)
        ≡ filter (has gram) c
  kept_step gram c s m = rw (posted gram) (
      intersect_sorted_ints_lem c (filter (has gram) all) s (filter-Increasing (has gram) all inc)
      ∙ filter_same (λ x. member x (filter (has gram) all)) (has gram) c
          (All-map_pred (λ x. member x all ≡ true)
            (λ x. member x (filter (has gram) all) ≡ has gram x)
            (λ x h. ground (arith, member-filter (has gram) all x, h)) c m))

  intersect_grams_lem :
      (grams c : List ℕ)
      → Increasing c
      → All (λ x. member x all ≡ true) c
      → intersect_grams segment grams c ≡ filter (has_all grams) c
  unfolding intersect_grams has_all
  intersect_grams_lem [] c s m = sym (filter_nothing_off c)
  intersect_grams_lem (gram ∷ grams) c s m =
      let next = filter (has gram) c in
      let rest =
        intersect_grams_lem grams next (filter-Increasing (has gram) c s)
          (All-filter (λ x. member x all ≡ true) (has gram) c m) in
      let both = filter-filter (has gram) (has_all grams) c in
      rw (kept_step gram c s m) (elim (Bool-cases (length next == 0)) [
        | inl e ↦
            let none_left : next ≡ [] = empty_list next ((==_iff (length next) 0).0 e) in
            rw e (ap (filter (has_all grams)) (sym none_left) ∙ both)
        | inr n ↦ rw n (rest ∙ both)
      ])

  missing_posting :
      (grams : List ℕ) → has_all_postings segment grams ≡ false → filter (has_all grams) all ≡ []
  unfolding has_all_postings has_all
  missing_posting [] h = absurd (ground (arith, h))
  missing_posting (gram ∷ grams) h = elim (Bool-cases ((segment.postings gram).count == 0)) [
    | inl e ↦
        let none_here : filter (has gram) all ≡ [] =
          empty_list (filter (has gram) all)
            (sym (counted gram) ∙ (==_iff (segment.postings gram).count 0).0 e) in
        filter_narrow (has gram) (has_all (gram ∷ grams)) all (λ x f. rw f refl) none_here
    | inr n ↦
        filter_narrow (has_all grams) (has_all (gram ∷ grams)) all (λ x f. ground (arith, f))
          (missing_posting grams (ground (arith, h, n)))
  ]

  pub segment_candidate_ids-kept :
      (gram : ℕ) (grams : List ℕ)
      → segment_candidate_ids segment (gram ∷ grams)
        ≡ filter (λ id. every (λ g. has g id) (gram ∷ grams)) all
  unfolding segment_candidate_ids has_all
  segment_candidate_ids-kept gram grams =
      elim (Bool-cases (has_all_postings segment (gram ∷ grams))) [
        | inr n ↦ rw n (sym (missing_posting (gram ∷ grams) n))
        | inl y ↦
            rw (y, posted gram)
              (intersect_grams_lem grams (filter (has gram) all)
                  (filter-Increasing (has gram) all inc)
                  (All-filter (λ x. member x all ≡ true) (has gram) all (own_members all))
                ∙ filter-filter (has gram) (has_all grams) all)
      ]
