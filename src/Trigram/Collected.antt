-- ===== src/Trigram/Collected.antt =====
-- cmd/seekfs/trigram_index.go: the segments that `buildCompactTrigramIndex` collects, against all the ids.
use mathlib.Core.List.{append-nil, append_assoc}
use seekfs.Common.{
  ℕ, zero, suc, ◌+◌, ◌-◌, ◌^◌, ◌≤◌, ◌<◌, ◌≡◌, refl, sym, ap, ◌∙◌, Bool, Bool-cases, true, false,
  inl, inr, List, [], ◌∷◌, ◌++◌, map, length, length-append, filter, ltb, leb, if◌then◌else◌, arith,
}
use seekfs.Replay.Volume.{CompactRecord}
use seekfs.Trigram.Index.{
  TrigramSegment, trigram_segment_target_records, chunk_loop, build_compact_trigram_segment,
  collect_segments, segment_candidate_ids, segments_candidate_ids,
}
use seekfs.Trigram.Kept.{range, every, range-append, range-Increasing, filter-append}
use seekfs.Trigram.Raw.{holds, build_compact_trigram_segment-posting}
use seekfs.Trigram.Segment.{segment_candidate_ids-kept}

range_split :
    (n start end next : ℕ)
    → start < n
    → next ≡ start + trigram_segment_target_records
    → end ≡ (if ltb n next then n else next)
    → range start (n - start) ≡ range start (end - start) ++ range next (n - next)
range_split n start end next l q e = elim (Bool-cases (ltb n next)) [
  | inl y ↦
      let last : end ≡ n = e ∙ rw y refl in
      let past : n - next ≡ 0 = ground (arith, y) in
      rw (last, past) (sym (append-nil (range start (n - start))))
  | inr f ↦
      let full : end ≡ next = e ∙ rw f refl in
      let parts : n - start ≡ (next - start) + (n - next) = ground (arith, f, q) in
      let back : start + (next - start) ≡ next = omega (arith, q) in
      rw (full, parts)
        (range-append start (next - start) (n - next)
          ∙ ap (λ i. range start (next - start) ++ range i (n - next)) back)
]

segments_candidate_ids-append :
    (xs : List TrigramSegment) (segment : TrigramSegment) (grams : List ℕ)
    → segments_candidate_ids (xs ++ (segment ∷ [])) grams
      ≡ segments_candidate_ids xs grams ++ segment_candidate_ids segment grams
unfolding segments_candidate_ids
segments_candidate_ids-append [] segment grams = append-nil (segment_candidate_ids segment grams)
segments_candidate_ids-append (x ∷ xs) segment grams =
    rw (segments_candidate_ids-append xs segment grams) (
      sym (
        append_assoc (segment_candidate_ids x grams) (segments_candidate_ids xs grams)
          (segment_candidate_ids segment grams)))

module _ (records : List CompactRecord) (text : ℕ → List ℕ) where
  abbrev pub has_all : List ℕ → ℕ → Bool
  has_all grams id = every (λ g. holds records text g id) grams

  abbrev pub build : ℕ × ℕ → TrigramSegment
  build c = build_compact_trigram_segment records text c.0 c.1

  -- The first chunk's segment is taken.
  chunk_step :
      (fuel n start : ℕ) (segments : List TrigramSegment) (counts : ℕ → ℕ)
      → start < n
      → (let next = start + trigram_segment_target_records in
          let segment = build (start, if ltb n next then n else next) in
          collect_segments (map build (chunk_loop (suc fuel) n start)) segments counts
          ≡ collect_segments
              (map build (chunk_loop fuel n next))
              (segments ++ (segment ∷ []))
              (λ j. counts j + (segment.postings j).count))
  unfolding chunk_loop collect_segments build_compact_trigram_segment
  chunk_step fuel n start segments counts l =
      let next = start + trigram_segment_target_records in
      let go : ltb start n ≡ true = ground (arith, l) in
      let some_left : leb (if ltb n next then n else next) start ≡ false = ground (arith, l) in
      rw (go, some_left) refl

  pub collected :
      (fuel n start : ℕ) (segments : List TrigramSegment) (counts : ℕ → ℕ) (gram : ℕ)
      (grams : List ℕ) (k : ℕ)
      → n ≤ start + fuel
      → n ≤ 2 ^ 32
      → (segments_candidate_ids
            (collect_segments (map build (chunk_loop fuel n start)) segments counts).0
            (gram ∷ grams)
          ≡ segments_candidate_ids segments (gram ∷ grams)
            ++ filter (has_all (gram ∷ grams)) (range start (n - start)))
        × ((collect_segments (map build (chunk_loop fuel n start)) segments counts).1 k
            ≡ counts k + length (filter (holds records text k) (range start (n - start))))
  unfolding chunk_loop collect_segments
  collected zero n start segments counts gram grams k f h =
      let stop : n - start ≡ 0 = omega (arith, f) in
      rw stop (sym (append-nil (segments_candidate_ids segments (gram ∷ grams))), omega arith)
  collected (suc fuel) n start segments counts gram grams k f h = elim (Bool-cases (ltb start n)) [
    | inr o ↦
        let stop : n - start ≡ 0 = ground (arith, o) in
        rw (o, stop)
          (sym (append-nil (segments_candidate_ids segments (gram ∷ grams))), omega arith)
    | inl l ↦
        let next = start + trigram_segment_target_records in
        let end = if ltb n next then n else next in
        let after : start < end = ground (arith, l) in
        let within : end ≤ 2 ^ 32 = ground (arith, h) in
        let full : leb end start ≡ false = ground (arith, after) in
        let all = range start (end - start) in
        let posting = λ (j : ℕ).
          build_compact_trigram_segment-posting records text start end j (omega (arith, after))
            within in
        let segment = build_compact_trigram_segment records text start end in
        let found =
          segment_candidate_ids-kept all (holds records text) segment
            (range-Increasing start (end - start)) (λ j. (posting j).1) (λ j. (posting j).0) gram
            grams in
        let (ih, ih_count) =
          collected fuel n next (segments ++ (segment ∷ []))
            (λ j. counts j + (segment.postings j).count) gram grams k (omega (arith, f)) h in
        let split = range_split n start end next (ground (arith, l)) refl refl in
        let step = chunk_step fuel n start segments counts (ground (arith, l)) in
        let all_ids = range next (n - next) in
        let old = segments_candidate_ids segments (gram ∷ grams) in
        let test = has_all (gram ∷ grams) in
        let has = holds records text k in
        (
          ap (λ r. segments_candidate_ids r.0 (gram ∷ grams)) step
              ∙ ih
              ∙ rw
                  (
                    segments_candidate_ids-append segments segment (gram ∷ grams),
                    found,
                    split,
                    filter-append test all all_ids,
                  )
                  (append_assoc old (filter test all) (filter test all_ids)),
          ap (λ r. r.1 k) step
              ∙ ih_count
              ∙ rw (split, filter-append has all all_ids)
                  (omega
                    (arith, (posting k).0, length-append (filter has all) (filter has all_ids))),
        )
  ]
