-- ===== src/Trigram/KeyForms.antt =====
-- cmd/seekfs/trigram_index.go: the four routines that list the keys of a text, together.
use seekfs.Common.{ℕ, ◌≡◌, ◌↔◌, true, List, map, fold_ascii}
use seekfs.Replay.BaseIds.{member, Distinct}
use seekfs.Trigram.Keys.{
  unique_fixed_gram_keys, unique_fixed_gram_keys_fold_ascii, append_unique_fixed_gram_keys,
  append_unique_fixed_gram_keys_fold_ascii,
}
use seekfs.Trigram.KeyLaws.{
  GramSize, HasKey, key_found, key_there, append_unique_fixed_gram_keys_unique,
  append_unique_fixed_gram_keys_fold_ascii-fold, unique_fixed_gram_keys_fold_ascii-map,
  unique_fixed_gram_keys-Distinct,
}

-- For every text and size of gram the list has no key twice and has, for the sizes 3 and 4, exactly the
-- keys at the places of the text, and for others none; the routine that appends to a scratch list gives
-- the same list, and the two that fold give the list of the folded text.
pub unique_fixed_gram_keys_lem :
    (dst s : List ℕ) (n : ℕ)
    → Distinct (unique_fixed_gram_keys s n)
      × ((k : ℕ) → (member k (unique_fixed_gram_keys s n) ≡ true) ↔ (GramSize n × HasKey s n k))
      × (append_unique_fixed_gram_keys dst s n ≡ unique_fixed_gram_keys s n)
      × (unique_fixed_gram_keys_fold_ascii s n ≡ unique_fixed_gram_keys (map fold_ascii s) n)
      × (append_unique_fixed_gram_keys_fold_ascii dst s n ≡ unique_fixed_gram_keys_fold_ascii s n)
unique_fixed_gram_keys_lem dst s n = (
  unique_fixed_gram_keys-Distinct s n,
  λ k. (key_found s n k, λ (g, w). key_there s n k g w),
  append_unique_fixed_gram_keys_unique dst s n,
  unique_fixed_gram_keys_fold_ascii-map s n,
  append_unique_fixed_gram_keys_fold_ascii-fold dst s n,
)
