-- ===== src/Trigram/Complete.antt =====
-- cmd/seekfs/trigram_index.go: no record that matches is missed.
use seekfs.Common.{
  ℕ, ◌^◌, ◌≤◌, ◌<◌, ◌≡◌, refl, subst, ◌∙◌, Bool, true, false, ◌&&◌, not, inl, some, List, [], ◌∷◌,
  length, get_or, filter, ◌==◌, Infix, arith,
}
use seekfs.Replay.Volume.{CompactRecord, no_record}
use seekfs.Replay.BaseIds.{member}
use seekfs.Trigram.Keys.{unique_fixed_gram_keys, fixed_gram_key}
use seekfs.Trigram.KeyLaws.{key_there}
use seekfs.Trigram.Index.{build_compact_trigram_index, candidate_ids}
use seekfs.Trigram.Kept.{range, at_range, every, every_from, member-filter}
use seekfs.Trigram.Inside.{member-Infix}
use seekfs.Trigram.Candidates.{candidate_ids_lem}

has_grams :
    (term : List ℕ) → 3 ≤ length term → (length (unique_fixed_gram_keys term 3) == 0) ≡ false
has_grams term h =
    let there = key_there term 3 (fixed_gram_key term 0 3) (inl refl) (0, omega (arith, h), refl) in
    not_empty (unique_fixed_gram_keys term 3) (fixed_gram_key term 0 3) there
  where
    not_empty : (xs : List ℕ) (k : ℕ) → member k xs ≡ true → (length xs == 0) ≡ false
    not_empty [] k m = absurd (ground (arith, m))
    not_empty (x ∷ xs) k m = ground arith

-- A term whose lower case has three bytes or more has an answer, and a record that is not deleted and whose
-- text has the lowered term in it is among the candidates, for an index of at most 2 ^ 32 records and a sort
-- that gives a list of the same members.
pub candidate_ids_complete :
    (lower : List ℕ → List ℕ) (sort : (ℕ → ℕ → Bool) → List ℕ → List ℕ)
    (records : List CompactRecord) (text : ℕ → List ℕ) (term : List ℕ) (id : ℕ)
    → ((less : ℕ → ℕ → Bool) (xs : List ℕ) (k : ℕ) → member k (sort less xs) ≡ member k xs)
    → length records ≤ 2 ^ 32
    → 3 ≤ length (lower term)
    → id < length records
    → (get_or records id no_record).deleted ≡ false
    → Infix (lower term) (text id)
    → (ids : List ℕ) × (candidate_ids lower sort (build_compact_trigram_index records text) term
        ≡ some ids)
      × (member id ids ≡ true)
candidate_ids_complete lower sort records text term id same small long l live inside =
    let grams = unique_fixed_gram_keys (lower term) 3 in
    let test : ℕ → Bool = λ x.
      not (get_or records x no_record).deleted
      && every (λ g. member g (unique_fixed_gram_keys (text x) 3)) grams in
    let passes : every (λ g. member g (unique_fixed_gram_keys (text id) 3)) grams ≡ true =
      every_from (λ g. member g (unique_fixed_gram_keys (text id) 3)) grams
        (λ k m. member-Infix (lower term) (text id) 3 k inside m) in
    let there : member id (range 0 (length records)) ≡ true =
      subst (λ x. member x (range 0 (length records)) ≡ true) (omega arith)
        (at_range 0 (length records) id l) in
    let passed : test id ≡ true = rw (live, passes) refl in
    (
      filter test (range 0 (length records)),
      candidate_ids_lem lower sort records text term same small
          ∙ rw (has_grams (lower term) long) refl,
      member-filter test (range 0 (length records)) id ∙ rw (there, passed) refl,
    )
