-- ===== src/Trigram/Inside.antt =====
-- cmd/seekfs/trigram_index.go: the keys of a text that stands inside another.
use seekfs.Common.{
  ℕ, ◌+◌, ◌≤◌, ◌<◌, ◌≡◌, refl, sym, ap, ◌∙◌, true, false, inl, inr, List, ◌++◌, length, get_or,
  get_or_before, get_or_behind, length-append, ◌==◌, Infix, arith,
}
use seekfs.Replay.BaseIds.{member}
use seekfs.Trigram.Keys.{fixed_gram_key, unique_fixed_gram_keys}
use seekfs.Trigram.KeyLaws.{GramSize, key_found, key_there}

module _ (pre term post : List ℕ) (i : ℕ) where
  moved :
      (d : ℕ)
      → i + d < length term
      → get_or (pre ++ (term ++ post)) (length pre + i + d) 0 ≡ get_or term (i + d) 0
  moved d h =
      let e : length pre + i + d ≡ length pre + (i + d) = omega arith in
      rw e (get_or_behind pre (term ++ post) (i + d) 0 ∙ get_or_before term post (i + d) 0 h)

  key_moved :
      (n : ℕ)
      → GramSize n
      → i + n ≤ length term
      → fixed_gram_key (pre ++ (term ++ post)) (length pre + i) n ≡ fixed_gram_key term i n
  unfolding fixed_gram_key
  key_moved n g h =
      let bound : i + 2 < length term = elim g [
        | inl q ↦ omega (arith, q, h)
        | inr q ↦ omega (arith, q, h)
      ] in
      let first : get_or (pre ++ (term ++ post)) (length pre + i) 0 ≡ get_or term i 0 =
        ap (λ j. get_or (pre ++ (term ++ post)) j 0) (omega arith)
        ∙ moved 0 (omega (arith, bound))
        ∙ ap (λ j. get_or term j 0) (omega arith) in
      elim g [
        | inl q ↦
            let small : (n == 4) ≡ false = ground (arith, q) in
            rw (small, first, moved 1 (omega (arith, bound)), moved 2 bound) refl
        | inr q ↦
            let large : (n == 4) ≡ true = ground (arith, q) in
            rw
              (
                large,
                first,
                moved 1 (omega (arith, bound)),
                moved 2 bound,
                moved 3 (omega (arith, q, h)),
              )
              refl
      ]

-- A text has every key of the texts that stand in it.
pub member-Infix :
    (term text : List ℕ) (n k : ℕ)
    → Infix term text
    → member k (unique_fixed_gram_keys term n) ≡ true
    → member k (unique_fixed_gram_keys text n) ≡ true
member-Infix term text n k (pre, post, e) h =
    let (g, (i, l, q)) = key_found term n k h in
    let inside : length pre + i + n ≤ length text =
      rw e (omega (arith, l, length-append pre (term ++ post), length-append term post)) in
    let same : k ≡ fixed_gram_key text (length pre + i) n =
      q
      ∙ sym (key_moved pre term post i n g l)
      ∙ ap (λ t. fixed_gram_key t (length pre + i) n) (sym e) in
    key_there text n k g (length pre + i, inside, same)
