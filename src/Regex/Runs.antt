-- ===== src/Regex/Runs.antt =====
-- cmd/seekfs/regex_required_literals.go: patterns of the code's tests.
use Prim.Native.Char.{code}
use Prim.Native.String.{String}
use seekfs.Common.{ℕ, ◌≡◌, ◌≢◌, refl, subst, inl, inr, some, List, [], ◌∷◌, arith, fold_ascii}
use seekfs.Regex.Tree.{
  RxNode, RxNodes, rx_literal_runs, products, rx_lit, rx_gap, rx_seq, rx_alt, rx_rep, no_nodes,
  node, RxTok, rx_dnf,
}
use seekfs.Regex.Language.{Matches, SeqMatches, Any}
use seekfs.Regex.Sound.{rx_dnf-Matches}
use seekfs.Regex.Scan.{out_of_fuel, parse_quant, group_start}
use seekfs.Regex.Parse.{parse_alt, alt_of, seq_of, push, fuel_for}
use seekfs.Regex.Fuel.{parse_alt-fuel_for}
use seekfs.Regex.Required.{
  tree_of, required_loop, regex_required_literal_alternatives, Contains,
  regex_required_literal_alternatives_lem,
}

abbrev codes : String → List ℕ
codes String.[] = []
codes (String.◌∷◌ c s) = code c ∷ codes s

-- A pattern with an alternation behind a gap, and what it requires.
abbrev pattern : List ℕ
pattern = codes "^a.*(Foo|bar)"

abbrev pattern_alts : List (List (List ℕ))
pattern_alts = (codes "foo" ∷ []) ∷ (codes "bar" ∷ []) ∷ []

pattern_alternatives : regex_required_literal_alternatives pattern ≡ some pattern_alts
unfolding regex_required_literal_alternatives tree_of parse_alt parse_quant group_start rx_dnf
    alt_of seq_of push products required_loop rx_literal_runs fold_ascii
pattern_alternatives = refl

abbrev word : String → RxNodes → RxNodes
word String.[] after = after
word (String.◌∷◌ c s) after = node (rx_lit (code c)) (word s after)

abbrev pattern_tree : RxNode
pattern_tree = rx_seq (
    node rx_gap (
      node (rx_lit b'a') (
        node (rx_rep rx_gap 0) (
          node
            (rx_alt
              (node (rx_seq (word "Foo" no_nodes)) (node (rx_seq (word "bar" no_nodes)) no_nodes)))
            no_nodes))))

tree_of-pattern : tree_of pattern ≡ some pattern_tree
unfolding tree_of parse_alt parse_quant group_start alt_of seq_of push
tree_of-pattern = refl

-- `abar`
abbrev subject : List ℕ
subject = codes "abar"

subject-Matches : Matches pattern_tree subject
unfolding Matches
subject-Matches = (
  [],
  subject,
  refl,
  tt,
  (
    codes "a",
    codes "bar",
    refl,
    refl,
    (
      [],
      codes "bar",
      refl,
      (0, omega arith, refl),
      (
        codes "bar",
        [],
        refl,
        inr (
            inl (
              codes "b",
              codes "ar",
              refl,
              refl,
              (codes "a", codes "r", refl, refl, (codes "r", [], refl, refl, refl)),
            )),
        refl,
      ),
    ),
  ),
)

regex_required_literal_alternatives_lem_example : Any (Contains subject) pattern_alts
regex_required_literal_alternatives_lem_example =
    regex_required_literal_alternatives_lem pattern pattern_alts pattern_tree subject
      pattern_alternatives tree_of-pattern subject-Matches

abbrev Given : List (List RxTok) → Type 0
Given [] = ⊥
Given (seq ∷ seqs) = Unit {0}

not_given_up : rx_dnf 128 pattern_tree ≢ []
unfolding rx_dnf products
not_given_up e = subst Given e tt

rx_dnf-Matches_example : Any (λ s. SeqMatches s subject) (rx_dnf 128 pattern_tree)
rx_dnf-Matches_example = rx_dnf-Matches 128 pattern_tree subject subject-Matches not_given_up

parse_alt-fuel_for_example : parse_alt (fuel_for pattern) pattern 0 ≢ out_of_fuel
parse_alt-fuel_for_example = parse_alt-fuel_for pattern
