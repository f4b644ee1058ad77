-- ===== src/Regex/Sound.antt =====
-- cmd/seekfs/regex_required_literals.go: the expansion against the texts of the tree.
use mathlib.Core.List.{append_assoc, append-nil}
use seekfs.Common.{
  ℕ, zero, suc, ◌≤◌, ◌≡◌, ◌≢◌, refl, sym, ap, subst, ◌∙◌, Bool, true, false, ◌⊎◌, inl, inr, List,
  [], ◌∷◌, ◌++◌, map, length, All, Infix, ltb, leb, ◌==◌, if◌then◌else◌, arith,
}
use seekfs.Regex.Tree.{
  RxNode, RxNodes, rx_lit, rx_gap, rx_seq, rx_alt, rx_rep, no_nodes, node, RxTok, byte, rx_gap_tok,
  flush, runs_loop, rx_literal_runs, is_nil, before_each, products, then_gap, rx_dnf, dnf_alt,
  dnf_seq,
}
use seekfs.Regex.Language.{Times, Matches, MatchesOne, MatchesAll, SeqMatches, Any}

SeqMatches-append :
    (a b : List RxTok) (t u : List ℕ)
    → SeqMatches a t
    → SeqMatches b u
    → SeqMatches (a ++ b) (t ++ u)
SeqMatches-append [] b t u h k = subst (λ z. SeqMatches b (z ++ u)) (sym h) k
SeqMatches-append (byte c ∷ a) b t u (v, e, h) k =
    (v ++ u, ap (λ z. z ++ u) e, SeqMatches-append a b v u h k)
SeqMatches-append (rx_gap_tok ∷ a) b t u (w, v, e, h) k =
    (w, v ++ u, ap (λ z. z ++ u) e ∙ append_assoc w v u, SeqMatches-append a b v u h k)

Any-left {ℓ} : {A : Type ℓ} (P : A → Type 0) (xs ys : List A) → Any P xs → Any P (xs ++ ys)
Any-left P [] ys h = elim h [ ]
Any-left P (x ∷ xs) ys (inl h) = inl h
Any-left P (x ∷ xs) ys (inr h) = inr (Any-left P xs ys h)

Any-right {ℓ} : {A : Type ℓ} (P : A → Type 0) (xs ys : List A) → Any P ys → Any P (xs ++ ys)
Any-right P [] ys h = h
Any-right P (x ∷ xs) ys h = inr (Any-right P xs ys h)

module _ (t u : List ℕ) where
  Any-before_each :
      (a : List RxTok) (sub : List (List RxTok))
      → SeqMatches a t
      → Any (λ s. SeqMatches s u) sub
      → Any (λ s. SeqMatches s (t ++ u)) (before_each a sub)
  unfolding before_each
  Any-before_each a [] h k = k
  Any-before_each a (s ∷ sub) h (inl k) = inl (SeqMatches-append a s t u h k)
  Any-before_each a (s ∷ sub) h (inr k) = inr (Any-before_each a sub h k)

  Any-products :
      (acc sub : List (List RxTok))
      → Any (λ s. SeqMatches s t) acc
      → Any (λ s. SeqMatches s u) sub
      → Any (λ s. SeqMatches s (t ++ u)) (products acc sub)
  unfolding products
  Any-products [] sub h k = h
  Any-products (a ∷ acc) sub (inl h) k =
      Any-left (λ s. SeqMatches s (t ++ u)) (before_each a sub) (products acc sub)
        (Any-before_each a sub h k)
  Any-products (a ∷ acc) sub (inr h) k =
      Any-right (λ s. SeqMatches s (t ++ u)) (before_each a sub) (products acc sub)
        (Any-products acc sub h k)

Any-then_gap :
    (t v : List ℕ) (seqs : List (List RxTok))
    → Any (λ s. SeqMatches s t) seqs
    → Any (λ s. SeqMatches s (t ++ v)) (map then_gap seqs)
Any-then_gap t v [] h = h
Any-then_gap t v (s ∷ seqs) (inl h) =
    inl (SeqMatches-append s (rx_gap_tok ∷ []) t v h (v, [], sym (append-nil v), refl))
Any-then_gap t v (s ∷ seqs) (inr h) = inr (Any-then_gap t v seqs h)

is_nil-map : (seqs : List (List RxTok)) → is_nil (map then_gap seqs) ≡ false → is_nil seqs ≡ false
is_nil-map [] h = h
is_nil-map (s ∷ seqs) h = refl

-- What a result that is not nil says of the tests on the way.
part_of :
    (sub : Bool) (over : Bool) (rest : List (List RxTok))
    → is_nil (if sub then [] else if over then [] else rest) ≡ false
    → (sub ≡ false) × (over ≡ false) × (is_nil rest ≡ false)
part_of true over rest h = cc
part_of false true rest h = cc
part_of false false rest h = (refl, refl, h)

-- One occurrence, and what follows it in the gap.
rep_lem :
    (P : List ℕ → Type 0) (seqs : List (List RxTok)) (least n : ℕ) (t : List ℕ)
    → least ≤ n
    → Times P n t
    → ((u : List ℕ) → P u → is_nil seqs ≡ false → Any (λ s. SeqMatches s u) seqs)
    → is_nil (if least == 0 then (rx_gap_tok ∷ []) ∷ [] else map then_gap seqs) ≡ false
    → Any (λ s. SeqMatches s t) (if least == 0 then (rx_gap_tok ∷ []) ∷ [] else map then_gap seqs)
rep_lem P seqs zero n t l h ih k = inl (t, [], sym (append-nil t), refl)
rep_lem P seqs (suc least) zero t l h ih k = absurd (omega arith)
rep_lem P seqs (suc least) (suc n) t l (u, v, e, h, r) ih k =
    let z : (suc least == 0) ≡ false = ground arith in
    let some_seq : is_nil (map then_gap seqs) ≡ false = ground (arith, k, z) in
    rw z (
      subst (λ w. Any (λ s. SeqMatches s w) (map then_gap seqs)) (sym e)
        (Any-then_gap u v seqs (ih u h (is_nil-map seqs some_seq))))

module _ (limit : ℕ) where
  mutual
    unfolding rx_dnf Matches

    rx_dnf_lem :
        (n : RxNode) (t : List ℕ)
        → Matches n t
        → is_nil (rx_dnf limit n) ≡ false
        → Any (λ s. SeqMatches s t) (rx_dnf limit n)
    rx_dnf_lem (rx_lit b) t h k = inl ([], h, refl)
    rx_dnf_lem rx_gap t h k = inl (t, [], sym (append-nil t), refl)
    rx_dnf_lem (rx_rep sub least) t (n, l, h) k =
        rep_lem (Matches sub) (rx_dnf limit sub) least n t l h (rx_dnf_lem sub) k
    rx_dnf_lem (rx_alt branches) t h k = dnf_alt_lem branches [] t (inr h) k
    rx_dnf_lem (rx_seq parts) t h k = dnf_seq_lem parts ([] ∷ []) [] t (inl refl) h k

    dnf_alt_lem :
        (ns : RxNodes) (out : List (List RxTok)) (t : List ℕ)
        → Any (λ s. SeqMatches s t) out ⊎ MatchesOne ns t
        → is_nil (dnf_alt limit ns out) ≡ false
        → Any (λ s. SeqMatches s t) (dnf_alt limit ns out)
    dnf_alt_lem no_nodes out t (inl h) k = h
    dnf_alt_lem no_nodes out t (inr h) k = elim h [ ]
    dnf_alt_lem (node n ns) out t h k =
        let all = out ++ rx_dnf limit n in
        let (e, l, r) =
          part_of (is_nil (rx_dnf limit n)) (ltb limit (length all)) (dnf_alt limit ns all) k in
        rw (e, l)
          (dnf_alt_lem ns all t
            (elim h [
              | inl o ↦ inl (Any-left (λ s. SeqMatches s t) out (rx_dnf limit n) o)
              | inr m ↦ elim m [
                | inl a ↦
                    inl (Any-right (λ s. SeqMatches s t) out (rx_dnf limit n) (rx_dnf_lem n t a e))
                | inr b ↦ inr b
              ]
            ])
            r)

    dnf_seq_lem :
        (ns : RxNodes) (acc : List (List RxTok)) (t u : List ℕ)
        → Any (λ s. SeqMatches s t) acc
        → MatchesAll ns u
        → is_nil (dnf_seq limit ns acc) ≡ false
        → Any (λ s. SeqMatches s (t ++ u)) (dnf_seq limit ns acc)
    dnf_seq_lem no_nodes acc t u h e k =
        subst (λ z. Any (λ s. SeqMatches s z) acc) (sym (ap (λ z. t ++ z) e ∙ append-nil t)) h
    dnf_seq_lem (node n ns) acc t u h (v, w, e, m, r) k =
        let next = products acc (rx_dnf limit n) in
        let (a, l, b) =
          part_of (is_nil (rx_dnf limit n)) (ltb limit (length next)) (dnf_seq limit ns next) k in
        rw (a, l)
          (subst (λ z. Any (λ s. SeqMatches s z) (dnf_seq limit ns next))
            (append_assoc t v w ∙ sym (ap (λ z. t ++ z) e))
            (dnf_seq_lem ns next (t ++ v) w
              (Any-products t v acc (rx_dnf limit n) h (rx_dnf_lem n v m a)) r b))

-- `flush` and the runs behind it, in a text that has the run in front of what is left of it.
Infix-flush : (front run rest : List ℕ) → All (λ r. Infix r (front ++ (run ++ rest))) (flush run)
unfolding flush
Infix-flush front run rest =
    elim (leb 3 (length run))
      as (λ b. All (λ r. Infix r (front ++ (run ++ rest))) (if b then run ∷ [] else [])) [
        | true ↦ ((front, rest, refl), tt)
        | false ↦ tt
      ]

All-append {ℓ} :
    {A : Type ℓ} (P : A → Type 0) (xs ys : List A) → All P xs → All P ys → All P (xs ++ ys)
All-append P [] ys h k = k
All-append P (x ∷ xs) ys h k = (h.0, All-append P xs ys h.1 k)

runs_loop_lem :
    (seq : List RxTok) (front run rest : List ℕ)
    → SeqMatches seq rest
    → All (λ r. Infix r (front ++ (run ++ rest))) (runs_loop run seq)
unfolding runs_loop
runs_loop_lem [] front run rest h = Infix-flush front run rest
runs_loop_lem (rx_gap_tok ∷ seq) front run rest (u, v, e, h) =
    All-append (λ r. Infix r (front ++ (run ++ rest))) (flush run) (runs_loop [] seq)
      (Infix-flush front run rest)
      (subst (λ z. All (λ r. Infix r z) (runs_loop [] seq))
        (append_assoc front (run ++ u) v
          ∙ ap (λ z. front ++ z) (append_assoc run u v ∙ sym (ap (λ z. run ++ z) e)))
        (runs_loop_lem seq (front ++ (run ++ u)) [] v h))
runs_loop_lem (byte b ∷ seq) front run rest (v, e, h) =
    subst (λ z. All (λ r. Infix r (front ++ z)) (runs_loop (run ++ (b ∷ [])) seq))
      (append_assoc run (b ∷ []) v ∙ sym (ap (λ z. run ++ z) e))
      (runs_loop_lem seq front (run ++ (b ∷ [])) v h)

-- Each literal run of a sequence stands in every text that the sequence matches.
pub rx_literal_runs_lem :
    (seq : List RxTok) (t : List ℕ) → SeqMatches seq t → All (λ r. Infix r t) (rx_literal_runs seq)
unfolding rx_literal_runs
rx_literal_runs_lem seq t h = runs_loop_lem seq [] [] t h

not_nil : (seqs : List (List RxTok)) → seqs ≢ [] → is_nil seqs ≡ false
not_nil [] h = absurd (h refl)
not_nil (s ∷ seqs) h = refl

-- Where the expansion is not given up, every text that the tree matches is one that a sequence of the
-- expansion matches.
pub rx_dnf-Matches :
    (limit : ℕ) (n : RxNode) (t : List ℕ)
    → Matches n t
    → rx_dnf limit n ≢ []
    → Any (λ s. SeqMatches s t) (rx_dnf limit n)
rx_dnf-Matches limit n t h k = rx_dnf_lem limit n t h (not_nil (rx_dnf limit n) k)
