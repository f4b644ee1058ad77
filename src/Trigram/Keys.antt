-- ===== src/Trigram/Keys.antt =====
-- cmd/seekfs/trigram_index.go: the grams of a text, `uniqueFixedGramKeys` and its relatives. The shifts of
-- bytes are joined as a sum. A map of the keys that were seen is their list.
use seekfs.Common.{
  ℕ, zero, suc, ◌+◌, ◌-◌, ◌*◌, ◌^◌, Bool, ◌&&◌, ◌||◌, not, List, [], ◌∷◌, ◌++◌, length, get_or, ltb,
  ◌==◌, if◌then◌else◌, fold_ascii,
}
use seekfs.Replay.BaseIds.{member}

-- The key of the `n` bytes from `start`, each taken by `byte`.
abbrev pub gram_key : (ℕ → ℕ) → ℕ → ℕ → ℕ
gram_key byte start n =
    if n == 4
    then byte start * 2 ^ 24
      + byte (start + 1) * 2 ^ 16
      + byte (start + 2) * 2 ^ 8
      + byte (start + 3)
    else byte start * 2 ^ 16 + byte (start + 1) * 2 ^ 8 + byte (start + 2)

unfoldable pub fixed_gram_key : List ℕ → ℕ → ℕ → ℕ
fixed_gram_key s start n = gram_key (λ i. get_or s i 0) start n

unfoldable pub fixed_gram_key_fold_ascii : List ℕ → ℕ → ℕ → ℕ
fixed_gram_key_fold_ascii s start n = gram_key (λ i. fold_ascii (get_or s i 0)) start n

-- `for i := 0; i+n <= len(s); i++`, with the keys at the places.
unfoldable pub seen_loop : (ℕ → ℕ) → ℕ → ℕ → List ℕ → List ℕ → List ℕ
seen_loop key zero i seen out = out
seen_loop key (suc rounds) i seen out =
    if member (key i) seen
    then seen_loop key rounds (suc i) seen out
    else seen_loop key rounds (suc i) (key i ∷ seen) (out ++ (key i ∷ []))

-- The same with a scan of what is there already.
unfoldable pub append_loop : (ℕ → ℕ) → ℕ → ℕ → List ℕ → List ℕ
append_loop key zero i dst = dst
append_loop key (suc rounds) i dst =
    append_loop key rounds (suc i) (if member (key i) dst then dst else dst ++ (key i ∷ []))

-- `n != 3 && n != 4`
abbrev pub no_gram_size : ℕ → Bool
no_gram_size n = not (n == 3) && not (n == 4)

-- The number of places of a gram.
abbrev pub places : List ℕ → ℕ → ℕ
places s n = suc (length s) - n

unfoldable pub unique_fixed_gram_keys : List ℕ → ℕ → List ℕ
unique_fixed_gram_keys s n =
    if ltb (length s) 3
    then []
    else if no_gram_size n
    then []
    else if ltb (length s) n
    then []
    else seen_loop (λ i. fixed_gram_key s i n) (places s n) 0 [] []

unfoldable pub unique_fixed_gram_keys_fold_ascii : List ℕ → ℕ → List ℕ
unique_fixed_gram_keys_fold_ascii s n =
    if no_gram_size n
    then []
    else if ltb (length s) n
    then []
    else seen_loop (λ i. fixed_gram_key_fold_ascii s i n) (places s n) 0 [] []

-- `dst = dst[:0]`: what the scratch list held is dropped.
unfoldable pub append_unique_fixed_gram_keys : List ℕ → List ℕ → ℕ → List ℕ
append_unique_fixed_gram_keys dst s n =
    if no_gram_size n || ltb (length s) n
    then []
    else append_loop (λ i. fixed_gram_key s i n) (places s n) 0 []

unfoldable pub append_unique_fixed_gram_keys_fold_ascii : List ℕ → List ℕ → ℕ → List ℕ
append_unique_fixed_gram_keys_fold_ascii dst s n =
    if no_gram_size n || ltb (length s) n
    then []
    else append_loop (λ i. fixed_gram_key_fold_ascii s i n) (places s n) 0 []
