-- ===== src/Trigram/Runs.antt =====
-- cmd/seekfs/trigram_index.go: three names, one of them deleted.
use seekfs.Common.{
  ℕ, ◌≡◌, ◌↔◌, refl, Bool, true, ◌&&◌, not, none, some, List, [], ◌∷◌, length, get_or, filter, map,
  fold_ascii, if◌then◌else◌, ◌==◌, pos, arith,
}
use seekfs.Replay.Volume.{CompactRecord, no_record}
use seekfs.Replay.BaseIds.{member, Distinct}
use seekfs.Delta.Defs.{
  encode_delta_uvarint32, decode_delta_uvarint32, encode_loop, decode_loop, put_uvarint, uvarint,
}
use seekfs.Sorted.Defs.{intersect_sorted_ints, intersect_loop}
use seekfs.Trigram.Keys.{
  unique_fixed_gram_keys, unique_fixed_gram_keys_fold_ascii, append_unique_fixed_gram_keys,
  append_unique_fixed_gram_keys_fold_ascii, fixed_gram_key, fixed_gram_key_fold_ascii, seen_loop,
  append_loop,
}
use seekfs.Trigram.KeyLaws.{GramSize, HasKey}
use seekfs.Trigram.KeyForms.{unique_fixed_gram_keys_lem}
use seekfs.Trigram.Index.{
  build_compact_trigram_index, build_compact_trigram_segment, collect_segments,
  trigram_build_chunks, chunk_loop, segment_loop, add_grams, candidate_ids, term_gram_keys,
  has_all_grams, count_for_gram, segments_candidate_ids, segment_candidate_ids, has_all_postings,
  intersect_grams,
}
use seekfs.Trigram.Kept.{range, every}
use seekfs.Trigram.Candidates.{candidate_ids_lem}
use seekfs.Trigram.Complete.{candidate_ids_complete}

abbrev no_sort : (ℕ → ℕ → Bool) → List ℕ → List ℕ
no_sort less xs = xs

abbrev abcd : List ℕ
abcd = b'a' ∷ b'b' ∷ b'c' ∷ b'd' ∷ []

abbrev names : List (List ℕ)
names = (b'x' ∷ abcd) ∷ abcd ∷ (b'a' ∷ b'b' ∷ b'c' ∷ b'b' ∷ []) ∷ []

abbrev text_of : ℕ → List ℕ
text_of id = get_or names id []

abbrev three : List CompactRecord
three =
    no_record
    ∷ record {
      frn = 0;
      parent_frn = 0;
      parent = pos 0;
      name = [];
      mode = 0;
      size = pos 0;
      mod_unix = pos 0;
      deleted = true;
    }
    ∷ no_record
    ∷ []

-- A gram that stands twice is one key, and a folded text has the keys of its lower case.
keys_test : unique_fixed_gram_keys_fold_ascii (b'A' ∷ b'a' ∷ b'A' ∷ b'a' ∷ []) 3 ≡ 6381921 ∷ []
unfolding unique_fixed_gram_keys_fold_ascii fixed_gram_key_fold_ascii seen_loop fold_ascii
keys_test = refl

-- The search for `bcd` finds the first name: the second is deleted and the third has another letter.
search_test :
    candidate_ids
      (λ t. map fold_ascii t)
      no_sort
      (build_compact_trigram_index three text_of)
      (b'B' ∷ b'c' ∷ b'd' ∷ [])
    ≡ some (0 ∷ [])
unfolding candidate_ids term_gram_keys has_all_grams count_for_gram segments_candidate_ids
    segment_candidate_ids has_all_postings intersect_grams build_compact_trigram_index
    build_compact_trigram_segment collect_segments trigram_build_chunks chunk_loop segment_loop
    add_grams append_unique_fixed_gram_keys append_loop unique_fixed_gram_keys seen_loop
    fixed_gram_key fold_ascii encode_delta_uvarint32 encode_loop put_uvarint decode_delta_uvarint32
    decode_loop uvarint intersect_sorted_ints intersect_loop
search_test = refl

candidate_ids_lem_example :
    candidate_ids (λ t. t) no_sort (build_compact_trigram_index three text_of) abcd ≡ (
      if length (unique_fixed_gram_keys abcd 3) == 0
      then none
      else some (
          filter
            (λ id.
              not (get_or three id no_record).deleted
              && every
                  (λ g. member g (unique_fixed_gram_keys (text_of id) 3))
                  (unique_fixed_gram_keys abcd 3))
            (range 0 3)))
candidate_ids_lem_example =
    candidate_ids_lem (λ t. t) no_sort three text_of abcd (λ less xs k. refl) (omega arith)

candidate_ids_complete_example :
    (ids : List ℕ) × (candidate_ids
        (λ t. t)
        no_sort
        (build_compact_trigram_index three text_of)
        abcd
      ≡ some ids)
    × (member 0 ids ≡ true)
candidate_ids_complete_example =
    candidate_ids_complete (λ t. t) no_sort three text_of abcd 0 (λ less xs k. refl) (omega arith)
      (omega arith) (omega arith) refl (b'x' ∷ [], [], refl)

unique_fixed_gram_keys_lem_example :
    Distinct (unique_fixed_gram_keys abcd 3)
    × ((k : ℕ) → (member k (unique_fixed_gram_keys abcd 3) ≡ true) ↔ (GramSize 3 × HasKey abcd 3 k))
    × (append_unique_fixed_gram_keys [] abcd 3 ≡ unique_fixed_gram_keys abcd 3)
    × (unique_fixed_gram_keys_fold_ascii abcd 3 ≡ unique_fixed_gram_keys (map fold_ascii abcd) 3)
    × (append_unique_fixed_gram_keys_fold_ascii [] abcd 3
        ≡ unique_fixed_gram_keys_fold_ascii abcd 3)
unique_fixed_gram_keys_lem_example = unique_fixed_gram_keys_lem [] abcd 3
