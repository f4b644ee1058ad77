-- ===== src/Regex/Language.antt =====
-- cmd/seekfs/regex_required_literals.go: the texts that a tree, and a sequence of tokens, stand for.
use seekfs.Common.{ℕ, zero, suc, ◌≤◌, ◌≡◌, ◌⊎◌, List, [], ◌∷◌, ◌++◌}
use seekfs.Regex.Tree.{
  RxNode, RxNodes, rx_lit, rx_gap, rx_seq, rx_alt, rx_rep, no_nodes, node, RxTok, byte, rx_gap_tok,
}

-- `n` texts of a language in a row.
abbrev pub Times : (List ℕ → Type 0) → ℕ → List ℕ → Type 0
Times P zero t = t ≡ []
Times P (suc n) t = (u : List ℕ) × (v : List ℕ) × (t ≡ u ++ v) × P u × Times P n v

-- A gap stands for any text, a repetition for its least number of occurrences or more.
unfoldable mutual
  pub Matches : RxNode → List ℕ → Type 0
  Matches (rx_lit b) t = t ≡ b ∷ []
  Matches rx_gap t = Unit {0}
  Matches (rx_rep sub least) t = (n : ℕ) × (least ≤ n) × Times (Matches sub) n t
  Matches (rx_alt branches) t = MatchesOne branches t
  Matches (rx_seq parts) t = MatchesAll parts t

  pub MatchesOne : RxNodes → List ℕ → Type 0
  MatchesOne no_nodes t = ⊥
  MatchesOne (node n ns) t = Matches n t ⊎ MatchesOne ns t

  pub MatchesAll : RxNodes → List ℕ → Type 0
  MatchesAll no_nodes t = t ≡ []
  MatchesAll (node n ns) t =
      (u : List ℕ) × (v : List ℕ) × (t ≡ u ++ v) × Matches n u × MatchesAll ns v

abbrev pub SeqMatches : List RxTok → List ℕ → Type 0
SeqMatches [] t = t ≡ []
SeqMatches (byte b ∷ seq) t = (v : List ℕ) × (t ≡ b ∷ v) × SeqMatches seq v
SeqMatches (rx_gap_tok ∷ seq) t = (u : List ℕ) × (v : List ℕ) × (t ≡ u ++ v) × SeqMatches seq v

abbrev pub Any {ℓ} : {A : Type ℓ} → (A → Type 0) → List A → Type 0
Any P [] = ⊥
Any P (x ∷ xs) = P x ⊎ Any P xs
