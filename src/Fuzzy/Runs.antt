-- ===== src/Fuzzy/Runs.antt =====
-- cmd/seekfs/fuzzy.go: names with slips.
use seekfs.Common.{ℕ, ◌≡◌, ◌⊎◌, ◌≤◌, ◌<◌, refl, true, false, List, [], ◌∷◌, Infix, arith}
use seekfs.Fuzzy.Distance.{damerau_levenshtein_bounded, rows_loop, row_loop, cell, cost, swapped}
use seekfs.Fuzzy.Alignment.{osa_distance}
use seekfs.Fuzzy.Rows.{capped}
use seekfs.Fuzzy.Bounded.{damerau_levenshtein_bounded-osa}
use seekfs.Fuzzy.Window.{fuzzy_name_distance, start_loop, width_loop, consider}
use seekfs.Fuzzy.Best.{fuzzy_name_distance_lem}

abbrev report : List ℕ
report = b'r' ∷ b'e' ∷ b'p' ∷ b'o' ∷ b'r' ∷ b't' ∷ []

abbrev reprot : List ℕ
reprot = b'r' ∷ b'e' ∷ b'p' ∷ b'r' ∷ b'o' ∷ b't' ∷ []

-- Two neighbours that are swapped count once.
swap_test : damerau_levenshtein_bounded report reprot 2 ≡ 1
unfolding damerau_levenshtein_bounded rows_loop row_loop cell cost swapped
swap_test = refl

window_test : fuzzy_name_distance (b'a' ∷ b'-' ∷ report) reprot 1 ≡ (1, false, 2, true)
unfolding fuzzy_name_distance start_loop width_loop consider damerau_levenshtein_bounded rows_loop
    row_loop cell cost swapped
window_test = refl

damerau_levenshtein_bounded-osa_example :
    damerau_levenshtein_bounded report reprot 1 ≡ capped 1 (osa_distance report reprot)
damerau_levenshtein_bounded-osa_example = damerau_levenshtein_bounded-osa report reprot 1

fuzzy_name_distance_lem_example :
    ((fuzzy_name_distance (b'a' ∷ b'-' ∷ report) reprot 1).3 ≡ true
      × ((fuzzy_name_distance (b'a' ∷ b'-' ∷ report) reprot 1).0 ≤ osa_distance report reprot)
      × ((fuzzy_name_distance (b'a' ∷ b'-' ∷ report) reprot 1).0 ≤ 1)
      × ((best : List ℕ) × Infix best (b'a' ∷ b'-' ∷ report)
          × (osa_distance best reprot ≡ (fuzzy_name_distance (b'a' ∷ b'-' ∷ report) reprot 1).0)))
    ⊎ ((fuzzy_name_distance (b'a' ∷ b'-' ∷ report) reprot 1).3 ≡ false
        × (1 < osa_distance report reprot))
fuzzy_name_distance_lem_example =
    fuzzy_name_distance_lem (b'a' ∷ b'-' ∷ report) reprot 1 report (b'a' ∷ b'-' ∷ [], [], refl)
      (omega arith)
