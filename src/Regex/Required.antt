-- ===== src/Regex/Required.antt =====
-- cmd/seekfs/regex_required_literals.go: `regexRequiredLiteralAlternatives`.
use seekfs.Common.{
  ℕ, ◌≡◌, ◌≢◌, refl, sym, subst, Bool, true, false, inl, inr, Option, none, some, List, [], ◌∷◌,
  map, drop, length, All, leb, ◌==◌, if◌then◌else◌, fold_ascii, has_prefix, Infix, Infix-map,
}
use seekfs.Regex.Tree.{RxNode, RxTok, rx_literal_runs, rx_dnf}
use seekfs.Regex.Language.{Matches, SeqMatches, Any}
use seekfs.Regex.Sound.{rx_literal_runs_lem, rx_dnf-Matches}
use seekfs.Regex.Scan.{Parsed, parsed, declined, out_of_fuel}
use seekfs.Regex.Parse.{parse_alt, fuel_for}

-- `strings.TrimPrefix(pattern, "(?i)")`
abbrev pub trimmed : List ℕ → List ℕ
trimmed pattern =
    if has_prefix (b'(' ∷ b'?' ∷ b'i' ∷ b')' ∷ []) pattern then drop 4 pattern else pattern

abbrev pub is_ascii : List ℕ → Bool
is_ascii [] = true
is_ascii (b ∷ bytes) = if leb 128 b then false else is_ascii bytes

-- The tree of a pattern that is read to its end.
abbrev whole : List ℕ → Parsed → Option RxNode
whole src (parsed n p) = if p == length src then some n else none
whole src declined = none
whole src out_of_fuel = none

unfoldable pub tree_of : List ℕ → Option RxNode
tree_of pattern =
    let src = trimmed pattern in
    if is_ascii src then whole src (parse_alt (fuel_for src) src 0) else none

-- One sequence of the loop: a sequence with no run gives everything up.
abbrev added : List (List ℕ) → Option (List (List (List ℕ))) → Option (List (List (List ℕ)))
added [] rest = none
added (r ∷ runs) none = none
added (r ∷ runs) (some out) = some (map (map fold_ascii) (r ∷ runs) ∷ out)

unfoldable pub required_loop : List (List RxTok) → Option (List (List (List ℕ)))
required_loop [] = some []
required_loop (seq ∷ seqs) = added (rx_literal_runs seq) (required_loop seqs)

-- `rxMaxDisjuncts`
abbrev pub rx_max_disjuncts : ℕ
rx_max_disjuncts = 128

-- What is made of the expansion; nil where there is none.
abbrev expanded : List (List RxTok) → Option (List (List (List ℕ)))
expanded [] = none
expanded (seq ∷ seqs) = required_loop (seq ∷ seqs)

abbrev from_tree : Option RxNode → Option (List (List (List ℕ)))
from_tree none = none
from_tree (some n) = expanded (rx_dnf rx_max_disjuncts n)

unfoldable pub regex_required_literal_alternatives : List ℕ → Option (List (List (List ℕ)))
regex_required_literal_alternatives pattern = from_tree (tree_of pattern)

All-map-map :
    (f : ℕ → ℕ) (t : List ℕ) (runs : List (List ℕ))
    → All (λ r. Infix r t) runs
    → All (λ r. Infix r (map f t)) (map (map f) runs)
All-map-map f t [] h = tt
All-map-map f t (r ∷ runs) h = (Infix-map f r t h.0, All-map-map f t runs h.1)

-- All the runs of an alternative stand in the text, without its case.
abbrev pub Contains : List ℕ → List (List ℕ) → Type 0
Contains t runs = All (λ r. Infix r (map fold_ascii t)) runs

of_added :
    (runs : List (List ℕ)) (rest : Option (List (List (List ℕ)))) (alts : List (List (List ℕ)))
    → added runs rest ≡ some alts
    → (out : List (List (List ℕ))) × (rest ≡ some out) × (alts ≡ map (map fold_ascii) runs ∷ out)
of_added [] rest alts e = cc
of_added (r ∷ runs) none alts e = cc
of_added (r ∷ runs) (some out) alts e = (out, refl, cc)

required_loop_lem :
    (seqs : List (List RxTok)) (alts : List (List (List ℕ))) (t : List ℕ)
    → required_loop seqs ≡ some alts
    → Any (λ s. SeqMatches s t) seqs
    → Any (Contains t) alts
unfolding required_loop
required_loop_lem [] alts t e h = elim h [ ]
required_loop_lem (seq ∷ seqs) alts t e h =
    let (out, r, a) = of_added (rx_literal_runs seq) (required_loop seqs) alts e in
    subst (Any (Contains t)) (sym a) (elim h [
      | inl m ↦ inl (All-map-map fold_ascii t (rx_literal_runs seq) (rx_literal_runs_lem seq t m))
      | inr m ↦ inr (required_loop_lem seqs out t r m)
    ])

expanded_lem :
    (seqs : List (List RxTok)) (alts : List (List (List ℕ))) (t : List ℕ)
    → expanded seqs ≡ some alts
    → (seqs ≢ [] → Any (λ s. SeqMatches s t) seqs)
    → Any (Contains t) alts
expanded_lem [] alts t e h = cc
expanded_lem (seq ∷ seqs) alts t e h = required_loop_lem (seq ∷ seqs) alts t e (h (λ n. cc))

-- Where alternatives are given, each text that the pattern's tree matches contains, without regard to the
-- case of ASCII letters, every run of one of them.
pub regex_required_literal_alternatives_lem :
    (pattern : List ℕ) (alts : List (List (List ℕ))) (n : RxNode) (t : List ℕ)
    → regex_required_literal_alternatives pattern ≡ some alts
    → tree_of pattern ≡ some n
    → Matches n t
    → Any (Contains t) alts
unfolding regex_required_literal_alternatives
regex_required_literal_alternatives_lem pattern alts n t e s h =
    expanded_lem (rx_dnf rx_max_disjuncts n) alts t (subst (λ z. from_tree z ≡ some alts) s e)
      (rx_dnf-Matches rx_max_disjuncts n t h)
