-- ===== src/Trigram/Index.antt =====
-- cmd/seekfs/trigram_index.go: `buildCompactTrigramIndex` and `candidateIDs`. The index of records is their
-- list, the text of a record a function of its id, as in the code; a map is a function with the value of a
-- missing key. Each worker writes the segment of its chunk and nothing else, so the segments are a list
-- that is built in the order of the chunks. The index is one that was built so: its counts and postings are
-- maps, it has no postings in a mapped file and no sorted columns of grams, and the branches that read
-- these are left out. The bytes of the postings are not counted.
use seekfs.Common.{
  ℕ, zero, suc, ◌+◌, ◌-◌, ◌^◌, ◌%◌, Bool, true, false, Option, none, some, List, [], ◌∷◌, ◌++◌, map,
  length, get_or, ltb, leb, ◌==◌, if◌then◌else◌,
}
use seekfs.Replay.Volume.{CompactRecord, no_record}
use seekfs.Delta.Defs.{encode_delta_uvarint32, decode_delta_uvarint32}
use seekfs.Sorted.Defs.{intersect_sorted_ints}
use seekfs.Trigram.Keys.{unique_fixed_gram_keys, append_unique_fixed_gram_keys}

abbrev pub trigram_segment_target_records : ℕ
trigram_segment_target_records = 500000

pub record CompressedPosting : Type 0 where
  pub count : ℕ
  pub encoded : List ℕ

pub record TrigramSegment : Type 0 where
  pub start : ℕ
  pub end : ℕ
  pub postings : ℕ → CompressedPosting

pub record CompressedTrigramIndex : Type 0 where
  pub segments : List TrigramSegment
  pub counts : ℕ → ℕ
  pub gram_counts_complete : Bool
  pub gram_size : ℕ
  pub record_count : ℕ

-- `for start := 0; start < recordCount; start += trigramSegmentTargetRecords`
unfoldable pub chunk_loop : ℕ → ℕ → ℕ → List (ℕ × ℕ)
chunk_loop zero record_count start = []
chunk_loop (suc fuel) record_count start =
    let next = start + trigram_segment_target_records in
    let end = if ltb record_count next then record_count else next in
    let more = chunk_loop fuel record_count next in
    if ltb start record_count then (start, end) ∷ more else []

-- A chunk has a record at least, so there are no more chunks than records.
unfoldable pub trigram_build_chunks : ℕ → List (ℕ × ℕ)
unfolding chunk_loop
trigram_build_chunks record_count = chunk_loop record_count record_count 0

-- `raw[gram] = append(raw[gram], uint32(id))` for the grams of a record.
unfoldable pub add_grams : (ℕ → List ℕ) → List ℕ → ℕ → ℕ → List ℕ
add_grams raw [] id = raw
add_grams raw (gram ∷ grams) id =
    add_grams (λ k. if k == gram then raw k ++ (id % 2 ^ 32 ∷ []) else raw k) grams id

module _ (records : List CompactRecord) (text : ℕ → List ℕ) where
  -- `for id := start; id < end; id++`
  unfoldable pub segment_loop : ℕ → ℕ → List ℕ → (ℕ → List ℕ) → ℕ → List ℕ
  segment_loop zero id grams raw = raw
  segment_loop (suc rounds) id grams raw =
      let keys = append_unique_fixed_gram_keys grams (text id) 3 in
      let skip = segment_loop rounds (suc id) grams raw in
      let more = segment_loop rounds (suc id) keys (add_grams raw keys id) in
      if (get_or records id no_record).deleted then skip else more

  unfoldable pub build_compact_trigram_segment : ℕ → ℕ → TrigramSegment
  unfolding segment_loop
  build_compact_trigram_segment start end =
      let raw = segment_loop (end - start) start [] (λ gram. []) in
      record {
        start = start;
        end = end;
        postings = λ gram. record {
          count = length (raw gram);
          encoded = encode_delta_uvarint32 (raw gram);
        };
      }

-- `for _, segment := range results`: the segments that are not empty, and the sums of their counts.
unfoldable pub collect_segments :
    List TrigramSegment → List TrigramSegment → (ℕ → ℕ) → List TrigramSegment × (ℕ → ℕ)
collect_segments [] segments counts = (segments, counts)
collect_segments (segment ∷ results) segments counts =
    if leb segment.end segment.start
    then collect_segments results segments counts
    else collect_segments results (segments ++ (segment ∷ []))
        (λ gram. counts gram + (segment.postings gram).count)

unfoldable pub build_compact_trigram_index :
    List CompactRecord → (ℕ → List ℕ) → CompressedTrigramIndex
build_compact_trigram_index records text =
    let chunks = trigram_build_chunks (length records) in
    let results = map (λ c. build_compact_trigram_segment records text c.0 c.1) chunks in
    let (segments, counts) = collect_segments results [] (λ gram. 0) in
    record {
      segments = segments;
      counts = counts;
      gram_counts_complete = true;
      gram_size = 3;
      record_count = length records;
    }

unfoldable pub count_for_gram : CompressedTrigramIndex → ℕ → ℕ
count_for_gram ti gram = ti.counts gram

unfoldable pub has_all_grams : CompressedTrigramIndex → List ℕ → Bool
has_all_grams ti [] = true
has_all_grams ti (gram ∷ grams) =
    if count_for_gram ti gram == 0 then false else has_all_grams ti grams

unfoldable pub term_gram_keys : CompressedTrigramIndex → List ℕ → List ℕ
term_gram_keys ti term = unique_fixed_gram_keys term (if ti.gram_size == 0 then 3 else ti.gram_size)

unfoldable pub has_all_postings : TrigramSegment → List ℕ → Bool
has_all_postings segment [] = true
has_all_postings segment (gram ∷ grams) =
    if (segment.postings gram).count == 0 then false else has_all_postings segment grams

-- The grams behind the first.
unfoldable pub intersect_grams : TrigramSegment → List ℕ → List ℕ → List ℕ
intersect_grams segment [] candidates = candidates
intersect_grams segment (gram ∷ grams) candidates =
    let ids = decode_delta_uvarint32 (segment.postings gram).encoded in
    let next = intersect_sorted_ints candidates ids in
    if length next == 0 then [] else intersect_grams segment grams next

unfoldable pub segment_candidate_ids : TrigramSegment → List ℕ → List ℕ
segment_candidate_ids segment grams =
    if has_all_postings segment grams
    then elim grams [
      | [] ↦ []
      | gram ∷ more ↦
          intersect_grams segment more (decode_delta_uvarint32 (segment.postings gram).encoded)
    ]
    else []

unfoldable pub segments_candidate_ids : List TrigramSegment → List ℕ → List ℕ
segments_candidate_ids [] grams = []
segments_candidate_ids (segment ∷ segments) grams =
    segment_candidate_ids segment grams ++ segments_candidate_ids segments grams

-- `strings.ToLower` and `sort.Slice`, which takes the order, are the parameters.
unfoldable pub candidate_ids :
    (List ℕ → List ℕ)
    → ((ℕ → ℕ → Bool) → List ℕ → List ℕ)
    → CompressedTrigramIndex
    → List ℕ
    → Option (List ℕ)
candidate_ids lower sort ti term =
    let grams = term_gram_keys ti (lower term) in
    let sorted = sort (λ g h. ltb (count_for_gram ti g) (count_for_gram ti h)) grams in
    if length grams == 0
    then none
    else if has_all_grams ti sorted
    then some (segments_candidate_ids ti.segments sorted)
    else some []
