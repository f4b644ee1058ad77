-- ===== src/Trigram/Candidates.antt =====
-- cmd/seekfs/trigram_index.go: what `candidateIDs` finds in the index that `buildCompactTrigramIndex` made.
use seekfs.Common.{
  ℕ, ◌-◌, ◌^◌, ◌≤◌, ◌≡◌, refl, sym, ap, ◌∙◌, Bool, Bool-cases, true, false, ◌&&◌, not, inl, inr,
  none, some, List, [], ◌∷◌, length, get_or, filter, All, ltb, ◌==◌, ==_iff, if◌then◌else◌, arith,
}
use seekfs.Replay.Volume.{CompactRecord, no_record}
use seekfs.Replay.BaseIds.{member}
use seekfs.Trigram.Keys.{unique_fixed_gram_keys}
use seekfs.Trigram.Index.{
  CompressedTrigramIndex, trigram_build_chunks, build_compact_trigram_index, count_for_gram,
  has_all_grams, term_gram_keys, segments_candidate_ids, candidate_ids,
}
use seekfs.Trigram.Kept.{range, every, filter_narrow, every_same, filter_same}
use seekfs.Trigram.Raw.{holds}
use seekfs.Trigram.Segment.{empty_list}
use seekfs.Trigram.Collected.{collected, has_all}

module _ (records : List CompactRecord) (text : ℕ → List ℕ) (small : length records ≤ 2 ^ 32) where
  all_ids : List ℕ
  all_ids = range 0 (length records)

  abbrev ti : CompressedTrigramIndex
  ti = build_compact_trigram_index records text

  none_off : length records - 0 ≡ length records
  none_off = omega arith

  counted : (k : ℕ) → count_for_gram ti k ≡ length (filter (holds records text k) all_ids)
  unfolding count_for_gram build_compact_trigram_index trigram_build_chunks all_ids
  counted k =
      (collected records text (length records) (length records) 0 [] (λ gram. 0) 0 [] k
        (omega arith) small).1
      ∙ rw none_off (omega arith)

  found :
      (gram : ℕ) (grams : List ℕ)
      → segments_candidate_ids ti.segments (gram ∷ grams)
        ≡ filter (has_all records text (gram ∷ grams)) all_ids
  unfolding build_compact_trigram_index trigram_build_chunks all_ids segments_candidate_ids
  found gram grams =
      (collected records text (length records) (length records) 0 [] (λ gram. 0) gram grams 0
        (omega arith) small).0
      ∙ rw none_off refl

  missing_gram :
      (grams : List ℕ)
      → has_all_grams ti grams ≡ false
      → filter (has_all records text grams) all_ids ≡ []
  unfolding has_all_grams
  missing_gram [] h = absurd (ground (arith, h))
  missing_gram (gram ∷ grams) h = elim (Bool-cases (count_for_gram ti gram == 0)) [
    | inl e ↦
        let none_here : filter (holds records text gram) all_ids ≡ [] =
          empty_list (filter (holds records text gram) all_ids)
            (sym (counted gram) ∙ (==_iff (count_for_gram ti gram) 0).0 e) in
        filter_narrow (holds records text gram) (has_all records text (gram ∷ grams)) all_ids
          (λ x f. rw f refl) none_here
    | inr n ↦
        filter_narrow (has_all records text grams) (has_all records text (gram ∷ grams)) all_ids
          (λ x f. ground (arith, f)) (missing_gram grams (ground (arith, h, n)))
  ]

  -- With at least one gram both ways out of the search give the ids that have them all.
  searched :
      (grams : List ℕ) (k : ℕ)
      → member k grams ≡ true
      → (if has_all_grams ti grams
          then some (segments_candidate_ids ti.segments grams)
          else some [])
        ≡ some (filter (has_all records text grams) all_ids)
  searched [] k h = absurd (ground (arith, h))
  searched (gram ∷ grams) k h = elim (Bool-cases (has_all_grams ti (gram ∷ grams))) [
    | inl y ↦ rw y (ap some (found gram grams))
    | inr n ↦ rw n (ap some (sym (missing_gram (gram ∷ grams) n)))
  ]

every_place {ℓ} : {P : ℕ → Type ℓ} → ((x : ℕ) → P x) → (xs : List ℕ) → All P xs
every_place h [] = tt
every_place h (x ∷ xs) = (h x, every_place h xs)

-- The guard stands once before a test of some grams, or in each.
guard_once :
    (b : Bool) (p : ℕ → Bool) (grams : List ℕ) (k : ℕ)
    → member k grams ≡ true
    → every (λ g. b && p g) grams ≡ (b && every p grams)
guard_once b p [] k h = absurd (ground (arith, h))
guard_once true p (g ∷ grams) k h = refl
guard_once false p (g ∷ grams) k h = refl

first_member : (xs : List ℕ) → (length xs == 0) ≡ false → (k : ℕ) × (member k xs ≡ true)
first_member [] h = absurd (ground (arith, h))
first_member (x ∷ xs) h = (x, ground arith)

-- For an index of at most 2 ^ 32 records and a sort that gives a list of the same members: without a
-- gram of the term there is no answer, and otherwise the candidates are, in ascending order, the ids of
-- the records that are not deleted and whose text has every gram of the lowered term.
pub candidate_ids_lem :
    (lower : List ℕ → List ℕ) (sort : (ℕ → ℕ → Bool) → List ℕ → List ℕ)
    (records : List CompactRecord) (text : ℕ → List ℕ) (term : List ℕ)
    → ((less : ℕ → ℕ → Bool) (xs : List ℕ) (k : ℕ) → member k (sort less xs) ≡ member k xs)
    → length records ≤ 2 ^ 32
    → candidate_ids lower sort (build_compact_trigram_index records text) term ≡ (
        if length (unique_fixed_gram_keys (lower term) 3) == 0
        then none
        else some (
            filter
              (λ id.
                not (get_or records id no_record).deleted
                && every
                    (λ g. member g (unique_fixed_gram_keys (text id) 3))
                    (unique_fixed_gram_keys (lower term) 3))
              (range 0 (length records))))
unfolding candidate_ids term_gram_keys build_compact_trigram_index all_ids
candidate_ids_lem lower sort records text term same small =
    let ti = build_compact_trigram_index records text in
    let grams = unique_fixed_gram_keys (lower term) 3 in
    let less : ℕ → ℕ → Bool = λ g h. ltb (count_for_gram ti g) (count_for_gram ti h) in
    elim (Bool-cases (length grams == 0)) [
      | inl e ↦ rw e refl
      | inr n ↦
          let (k, m) = first_member grams n in
          let kept = searched records text small (sort less grams) k (same less grams k ∙ m) in
          let test : ℕ → ℕ → Bool = λ id g. member g (unique_fixed_gram_keys (text id) 3) in
          let live : ℕ → Bool = λ id. not (get_or records id no_record).deleted in
          rw n (
            kept
            ∙ ap some (
                filter_same (has_all records text (sort less grams))
                  (λ id. live id && every (test id) grams) (range 0 (length records))
                  (every_place
                    (λ id.
                      every_same (λ g. holds records text g id) (sort less grams) grams
                        (same less grams)
                      ∙ guard_once (live id) (test id) grams k m)
                    (range 0 (length records)))))
    ]
