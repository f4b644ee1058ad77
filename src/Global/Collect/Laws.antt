-- ===== src/Global/Collect/Laws.antt =====
-- cmd/seekfs/global_rank.go: what the collecting loops return.
use mathlib.Core.List.{append-nil, append_assoc}
use seekfs.Common.{
  ℕ, zero, suc, ◌+◌, ◌≤◌, ◌<◌, ◌≡◌, ◌⊎◌, refl, sym, ap, true, false, Bool-cases, inl, inr, some,
  List, [], ◌∷◌, ◌++◌, head?, arith, ◌==◌, if◌then◌else◌, length, length-append, take,
}
use seekfs.Global.Id.{
  GlobalRecordId, compare_cases, compare_lt, compare_gt, compare_eq, drop_before,
}
use seekfs.Global.Iterator.{Iterator, Forward, Seeks}
use seekfs.Global.Buffered.{Buffered, Buffered-next, Buffered-seek_ge, length-Buffered}
use seekfs.Global.Sets.{
  common, nil-common, common-nil, common_lt, common_gt, common_eq, length-drop_before,
}
use seekfs.Global.Collect.Defs.{
  reached, collect_loop, collect_global_iterator, intersect_loop, intersect_global_iterators,
}

-- The first `limit` ids; with limit 0 all of them.
unfoldable pub limited : ℕ → List GlobalRecordId → List GlobalRecordId
limited limit l = if limit == 0 then l else take limit l

-- A loop goes on while its output is below the limit.
abbrev pub Room : ℕ → List GlobalRecordId → Type 0
Room limit out = (limit ≡ 0) ⊎ (length out < limit)

take-append : (n : ℕ) (out rest : List GlobalRecordId) → length out ≡ n → take n (out ++ rest) ≡ out
take-append zero [] rest h = refl
take-append zero (x ∷ out) rest h = absurd (omega arith)
take-append (suc n) [] rest h = absurd (omega arith)
take-append (suc n) (x ∷ out) rest h = ap (λ r. x ∷ r) (take-append n out rest (omega arith))

take_all : (n : ℕ) (out : List GlobalRecordId) → length out ≤ n → take n out ≡ out
take_all zero [] h = refl
take_all zero (x ∷ out) h = absurd (omega arith)
take_all (suc n) [] h = refl
take_all (suc n) (x ∷ out) h = ap (λ r. x ∷ r) (take_all n out (omega arith))

pub limited_all : (limit : ℕ) (out : List GlobalRecordId) → Room limit out → limited limit out ≡ out
unfolding limited
limited_all limit out h = ground (arith, take_all limit out)

-- The two ways on after an append.
pub limited-reached :
    (limit : ℕ) (out : List GlobalRecordId) (x : GlobalRecordId) (rest : List GlobalRecordId)
    → Room limit out
    → reached limit (out ++ (x ∷ [])) ≡ true
    → limited limit (out ++ (x ∷ rest)) ≡ out ++ (x ∷ [])
unfolding limited
limited-reached limit out x rest h e =
    rw (← append_assoc out (x ∷ []) rest)
      (ground (arith, take-append limit (out ++ (x ∷ [])) rest, length-append out (x ∷ [])))

pub Room-on :
    (limit : ℕ) (out : List GlobalRecordId) (x : GlobalRecordId)
    → reached limit (out ++ (x ∷ [])) ≡ false
    → Room limit (out ++ (x ∷ []))
Room-on zero out x e = inl refl
Room-on (suc n) out x e = inr (ground arith)

pub Room-start : (limit : ℕ) → Room limit []
Room-start zero = inl refl
Room-start (suc n) = inr (omega arith)

module _ {S : Type 0} (I : Iterator S) (c : Forward I) where
  collect_loop_lem :
      (f limit : ℕ) (s : S) (out l : List GlobalRecordId)
      → length l < f
      → c.Holds s l
      → Room limit out
      → collect_loop I f limit s out ≡ limited limit (out ++ l)
  unfolding collect_loop
  collect_loop_lem zero limit s out l h hold room = absurd (omega arith)
  collect_loop_lem (suc f) limit s out [] h hold room =
      rw (c.next_result s [] hold, collect_loop, append-nil) (sym (limited_all limit out room))
  collect_loop_lem (suc f) limit s out (x ∷ l) h hold room =
      rw (c.next_result s (x ∷ l) hold, collect_loop)
        (elim (Bool-cases (reached limit (out ++ (x ∷ [])))) [
          | inl e ↦ rw e (sym (limited-reached limit out x l room e))
          | inr e ↦
              rw (e, ← append_assoc out (x ∷ []) l)
                (collect_loop_lem f limit (I.next s).0 (out ++ (x ∷ [])) l (omega arith)
                  (c.next_state s (x ∷ l) hold) (Room-on limit out x e))
        ])

  -- Collecting returns the ids that the iterator has still to return, up to the limit.
  pub collect_lem :
      (s : S) (l : List GlobalRecordId) (limit : ℕ)
      → c.Holds s l
      → collect_global_iterator I (some s) limit ≡ limited limit l
  unfolding collect_global_iterator
  collect_lem s l limit hold =
      collect_loop_lem (suc (I.budget s)) limit s [] l (omega (arith, c.within s l hold)) hold
        (Room-start limit)

module _ {A B : Type 0} (I : Iterator A) (J : Iterator B) (c : Forward I) (d : Forward J)
    (k : Seeks I c) (m : Seeks J d) where
  intersect_loop_lem :
      (f limit : ℕ) (a : A) (b : B) (out la lb : List GlobalRecordId)
      → length la + length lb < f
      → Buffered c a la
      → Buffered d b lb
      → Room limit out
      → intersect_loop I J f limit a b (head? la) (head? lb) out
        ≡ limited limit (out ++ common la lb)
  unfolding intersect_loop
  intersect_loop_lem zero limit a b out la lb h p q room = absurd (omega arith)
  intersect_loop_lem (suc f) limit a b out [] lb h p q room =
      rw (nil-common, append-nil) (sym (limited_all limit out room))
  intersect_loop_lem (suc f) limit a b out (x ∷ la) [] h p q room =
      rw (common-nil, append-nil) (sym (limited_all limit out room))
  intersect_loop_lem (suc f) limit a b out (x ∷ la) (y ∷ lb) h p q room = elim (compare_cases x y) [
    | inr (inl e) ↦
        rw (e, intersect_loop, ← compare_eq x y e, common_eq x x la lb p.order)
          (elim (Bool-cases (reached limit (out ++ (x ∷ [])))) [
            | inl r ↦ rw r (sym (limited-reached limit out x (common la lb) room r))
            | inr r ↦
                rw
                  (
                    r,
                    ← append_assoc out (x ∷ []) (common la lb),
                    c.next_result a la p.rest,
                    d.next_result b lb q.rest,
                  )
                  (intersect_loop_lem f limit (I.next a).0 (J.next b).0 (out ++ (x ∷ [])) la lb
                    (omega arith) (Buffered-next c a la p.rest) (Buffered-next d b lb q.rest)
                    (Room-on limit out x r))
          ])
    | inl e ↦
        rw
          (
            e,
            intersect_loop,
            k.seek_result y a la p.rest,
            ← common_lt x y la lb (compare_lt x y e) q.order,
          )
          (intersect_loop_lem f limit (I.seek_ge y a).0 b out (drop_before y la) (y ∷ lb)
            (omega (arith, length-drop_before y la)) (Buffered-seek_ge c k y a la p.rest) q room)
    | inr (inr e) ↦
        rw
          (
            e,
            intersect_loop,
            m.seek_result x b lb q.rest,
            ← common_gt x y la lb (compare_gt x y e) p.order,
          )
          (intersect_loop_lem f limit a (J.seek_ge x b).0 out (x ∷ la) (drop_before x lb)
            (omega (arith, length-drop_before x lb)) p (Buffered-seek_ge d m x b lb q.rest) room)
  ]

  pub intersect_lem :
      (a : A) (b : B) (la lb : List GlobalRecordId) (limit : ℕ)
      → c.Holds a la
      → d.Holds b lb
      → intersect_global_iterators I J (some a) (some b) limit ≡ limited limit (common la lb)
  unfolding intersect_global_iterators
  intersect_lem a b la lb limit ha hb =
      let p = Buffered-next c a la ha in
      let q = Buffered-next d b lb hb in
      rw (c.next_result a la ha, d.next_result b lb hb)
        (intersect_loop_lem (I.budget (I.next a).0 + J.budget (J.next b).0 + 3) limit (I.next a).0
          (J.next b).0 [] la lb (omega (arith, length-Buffered c la p, length-Buffered d lb q)) p q
          (Room-start limit))
