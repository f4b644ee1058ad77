-- ===== src/Regex/Tree.antt =====
-- cmd/seekfs/regex_required_literals.go: `rxNode`, `rxDNF` and `rxLiteralRuns`. A nil slice of sequences
-- is the empty one: no call gives an empty slice that is not nil.
use seekfs.Common.{
  ℕ, Bool, true, false, List, [], ◌∷◌, ◌++◌, map, length, ltb, leb, ◌==◌, if◌then◌else◌,
}

mutual
  pub data RxNode : Type 0 where
    rx_lit : ℕ → RxNode
    rx_gap : RxNode
    rx_seq : RxNodes → RxNode
    rx_alt : RxNodes → RxNode
    rx_rep : RxNode → ℕ → RxNode

  pub data RxNodes : Type 0 where
    no_nodes : RxNodes
    node : RxNode → RxNodes → RxNodes

-- A literal byte, or the gap that is -1 in the code.
pub data RxTok : Type 0 where
  byte : ℕ → RxTok
  rx_gap_tok : RxTok

-- `flush`
unfoldable pub flush : List ℕ → List (List ℕ)
flush run = if leb 3 (length run) then run ∷ [] else []

-- The loop over the sequence, with the run that is being read.
unfoldable pub runs_loop : List ℕ → List RxTok → List (List ℕ)
unfolding flush
runs_loop run [] = flush run
runs_loop run (rx_gap_tok ∷ seq) = flush run ++ runs_loop [] seq
runs_loop run (byte b ∷ seq) = runs_loop (run ++ (b ∷ [])) seq

unfoldable pub rx_literal_runs : List RxTok → List (List ℕ)
unfolding runs_loop
rx_literal_runs seq = runs_loop [] seq

abbrev pub is_nil {ℓ} : {A : Type ℓ} → List A → Bool
is_nil [] = true
is_nil (x ∷ xs) = false

-- The two inner loops of a sequence: each of `acc` before each of `sub`.
unfoldable pub before_each : List RxTok → List (List RxTok) → List (List RxTok)
before_each a [] = []
before_each a (s ∷ sub) = (a ++ s) ∷ before_each a sub

unfoldable pub products : List (List RxTok) → List (List RxTok) → List (List RxTok)
unfolding before_each
products [] sub = []
products (a ∷ acc) sub = before_each a sub ++ products acc sub

-- One occurrence, and a gap behind it.
abbrev pub then_gap : List RxTok → List RxTok
then_gap s = s ++ (rx_gap_tok ∷ [])

module _ (limit : ℕ) where
  -- Past the limit the result is nil. `next` and `out` only grow, so the tests inside the loops say what
  -- the test of the whole says.
  unfoldable mutual
    pub rx_dnf : RxNode → List (List RxTok)
    rx_dnf (rx_lit b) = (byte b ∷ []) ∷ []
    rx_dnf rx_gap = (rx_gap_tok ∷ []) ∷ []
    rx_dnf (rx_rep sub least) =
        if least == 0 then (rx_gap_tok ∷ []) ∷ [] else map then_gap (rx_dnf sub)
    rx_dnf (rx_alt branches) = dnf_alt branches []
    rx_dnf (rx_seq parts) = dnf_seq parts ([] ∷ [])

    -- `for _, br := range v.branches`; a result that is nil stays nil.
    pub dnf_alt : RxNodes → List (List RxTok) → List (List RxTok)
    dnf_alt no_nodes out = out
    dnf_alt (node br branches) out =
        let sub = rx_dnf br in
        let all = out ++ sub in
        let rest = dnf_alt branches all in
        if is_nil sub then [] else if ltb limit (length all) then [] else rest

    -- `for _, part := range v.parts`
    pub dnf_seq : RxNodes → List (List RxTok) → List (List RxTok)
    dnf_seq no_nodes acc = acc
    dnf_seq (node part parts) acc =
        let sub = rx_dnf part in
        let next = products acc sub in
        let rest = dnf_seq parts next in
        if is_nil sub then [] else if ltb limit (length next) then [] else rest
