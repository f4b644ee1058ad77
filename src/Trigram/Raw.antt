-- ===== src/Trigram/Raw.antt =====
-- cmd/seekfs/trigram_index.go: the ids of a gram that `buildCompactTrigramSegment` gathers.
use mathlib.Core.List.{append-nil, append_assoc}
use seekfs.Common.{
  ℕ, zero, suc, ◌+◌, ◌-◌, ◌^◌, ◌%◌, ◌≤◌, ◌<◌, ◌≡◌, refl, sym, ap, ◌∙◌, Bool, Bool-cases, false,
  ◌&&◌, not, inl, inr, List, [], ◌∷◌, ◌++◌, length, get_or, filter, All-filter, ◌==◌, ==_iff,
  if◌then◌else◌, arith,
}
use seekfs.Replay.Volume.{CompactRecord, no_record}
use seekfs.Replay.BaseIds.{member, Distinct}
use seekfs.Delta.Defs.{encode_delta_uvarint32, decode_delta_uvarint32}
use seekfs.Delta.Laws.{decode-encode}
use seekfs.Trigram.Keys.{unique_fixed_gram_keys}
use seekfs.Trigram.KeyLaws.{append_unique_fixed_gram_keys_unique, unique_fixed_gram_keys-Distinct}
use seekfs.Trigram.Index.{add_grams, segment_loop, build_compact_trigram_segment}
use seekfs.Trigram.Kept.{range, range_below}

add_grams_lem :
    (raw : ℕ → List ℕ) (grams : List ℕ) (id k : ℕ)
    → Distinct grams
    → id < 2 ^ 32
    → add_grams raw grams id k ≡ (if member k grams then raw k ++ (id ∷ []) else raw k)
unfolding add_grams
add_grams_lem raw [] id k d h = refl
add_grams_lem raw (gram ∷ grams) id k d h =
    let fits : id % 2 ^ 32 ≡ id = omega (arith, h) in
    let ih =
      add_grams_lem (λ k. if k == gram then raw k ++ (id % 2 ^ 32 ∷ []) else raw k) grams id k d.1
        h in
    elim (Bool-cases (k == gram)) [
      | inl e ↦
          let once : member k grams ≡ false =
            ap (λ g. member g grams) ((==_iff k gram).0 e) ∙ d.0 in
          ih ∙ rw (once, e, fits) refl
      | inr n ↦ ih ∙ rw n refl
    ]

module _ (records : List CompactRecord) (text : ℕ → List ℕ) where
  -- The record counts and its text has the gram.
  abbrev pub holds : ℕ → ℕ → Bool
  holds gram id =
      not (get_or records id no_record).deleted && member gram (unique_fixed_gram_keys (text id) 3)

  segment_loop_lem :
      (rounds id : ℕ) (grams : List ℕ) (raw : ℕ → List ℕ) (k : ℕ)
      → id + rounds ≤ 2 ^ 32
      → segment_loop records text rounds id grams raw k
        ≡ raw k ++ filter (holds k) (range id rounds)
  unfolding segment_loop
  segment_loop_lem zero id grams raw k h = sym (append-nil (raw k))
  segment_loop_lem (suc rounds) id grams raw k h =
      let keys = unique_fixed_gram_keys (text id) 3 in
      let same = append_unique_fixed_gram_keys_unique grams (text id) 3 in
      elim (Bool-cases (get_or records id no_record).deleted) [
        | inl y ↦ rw y (segment_loop_lem rounds (suc id) grams raw k (omega (arith, h)))
        | inr n ↦
            let added =
              add_grams_lem raw keys id k (unique_fixed_gram_keys-Distinct (text id) 3)
                (omega (arith, h)) in
            let ih =
              segment_loop_lem rounds (suc id) keys (add_grams raw keys id) k (omega (arith, h)) in
            rw (n, same)
              (ih ∙ elim (Bool-cases (member k keys)) [
                | inl m ↦
                    rw (added, m)
                      (append_assoc (raw k) (id ∷ []) (filter (holds k) (range (suc id) rounds)))
                | inr m ↦ rw (added, m) refl
              ])
      ]

  -- A segment's posting of a gram counts and holds the ids of its records that have the gram.
  pub build_compact_trigram_segment-posting :
      (start end k : ℕ)
      → start ≤ end
      → end ≤ 2 ^ 32
      → ((((build_compact_trigram_segment records text start end).postings k).count
            ≡ length (filter (holds k) (range start (end - start))))
          × (decode_delta_uvarint32
                ((build_compact_trigram_segment records text start end).postings k).encoded
              ≡ filter (holds k) (range start (end - start))))
  unfolding build_compact_trigram_segment
  build_compact_trigram_segment-posting start end k s h =
      let raw = segment_loop_lem (end - start) start [] (λ gram. []) k (omega (arith, s, h)) in
      let ids = filter (holds k) (range start (end - start)) in
      let small =
        All-filter (λ x. x < 2 ^ 32) (holds k) (range start (end - start))
          (range_below (2 ^ 32) start (end - start) (omega (arith, s, h))) in
      (
        ap length raw,
        ap (λ xs. decode_delta_uvarint32 (encode_delta_uvarint32 xs)) raw ∙ decode-encode ids small,
      )
