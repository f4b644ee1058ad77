-- ===== src/Global/Collect/Union.antt =====
-- cmd/seekfs/global_rank.go: `unionGlobalIterators`, and the union of two lists of ids.
use Prim.Native.Nat.{Ordering}
use mathlib.Core.List.{append-nil, append_assoc}
use seekfs.Common.{
  ℕ, zero, suc, ◌+◌, ◌<◌, ◌≡◌, refl, sym, ap, subst, ◌∙◌, ◌||◌, Bool-cases, inl, inr, some, List,
  [], ◌∷◌, ◌++◌, head?, arith, length, All,
}
use seekfs.Global.Id.{
  GlobalRecordId, Before, Before-All, Ascending, compare_global_record_id, compare_cases,
  compare_lt, compare_gt, compare_eq,
}
use seekfs.Global.Iterator.{Iterator, Forward}
use seekfs.Global.Buffered.{Buffered, Buffered-next, length-Buffered}
use seekfs.Global.Sets.{contains}
use seekfs.Global.Union.{IsUnion, contains_any}
use seekfs.Global.Collect.Defs.{reached, union_loop, union_global_iterators}
use seekfs.Global.Collect.Laws.{limited, limited_all, limited-reached, Room, Room-on, Room-start}

-- Two ascending lists merged, a common id once.
unfoldable pub union_of : List GlobalRecordId → List GlobalRecordId → List GlobalRecordId
union_of [] b = b
union_of (x ∷ a) [] = x ∷ a
union_of (x ∷ a) (y ∷ b) = elim (compare_global_record_id x y) [
  | Ordering.lt ↦ x ∷ union_of a (y ∷ b)
  | Ordering.eq ↦ x ∷ union_of a b
  | _ ↦ y ∷ union_of (x ∷ a) b
]

union_of-nil : (a : List GlobalRecordId) → union_of a [] ≡ a
unfolding union_of
union_of-nil [] = refl
union_of-nil (x ∷ a) = refl

union_of-All :
    (P : GlobalRecordId → Type 0) (a b : List GlobalRecordId)
    → All P a
    → All P b
    → All P (union_of a b)
unfolding union_of
union_of-All P [] b h k = k
union_of-All P (x ∷ a) [] h k = h
union_of-All P (x ∷ a) (y ∷ b) h k = elim (compare_cases x y) [
  | inl e ↦ rw (e, union_of) (h.0, union_of-All P a (y ∷ b) h.1 k)
  | inr (inl e) ↦ rw (e, union_of) (h.0, union_of-All P a b h.1 k.1)
  | inr (inr e) ↦ rw (e, union_of) (k.0, union_of-All P (x ∷ a) b h k.1)
]

union_of-Ascending :
    (a b : List GlobalRecordId) → Ascending a → Ascending b → Ascending (union_of a b)
unfolding union_of
union_of-Ascending [] b h k = k
union_of-Ascending (x ∷ a) [] h k = h
union_of-Ascending (x ∷ a) (y ∷ b) h k = elim (compare_cases x y) [
  | inl e ↦
      let below = compare_lt x y e in
      rw (e, union_of)
        (
          union_of-All (Before x) a (y ∷ b) h.0 (below, Before-All x y b below k.0),
          union_of-Ascending a (y ∷ b) h.1 k,
        )
  | inr (inl e) ↦
      rw (e, union_of)
        (
          union_of-All (Before x) a b h.0
              (subst (λ w. All (Before w) b) (sym (compare_eq x y e)) k.0),
          union_of-Ascending a b h.1 k.1,
        )
  | inr (inr e) ↦
      let below = compare_gt x y e in
      rw (e, union_of)
        (
          union_of-All (Before y) (x ∷ a) b (below, Before-All y x a below h.0) k.0,
          union_of-Ascending (x ∷ a) b h k.1,
        )
]

contains-union_of :
    (z : GlobalRecordId) (a b : List GlobalRecordId)
    → contains z (union_of a b) ≡ contains z a || contains z b
unfolding union_of contains
contains-union_of z [] b = refl
contains-union_of z (x ∷ a) [] = ground arith
contains-union_of z (x ∷ a) (y ∷ b) = elim (compare_cases x y) [
  | inl e ↦ rw (e, union_of) (ground (arith, contains-union_of z a (y ∷ b)))
  | inr (inl e) ↦ rw (e, union_of, ← compare_eq x y e) (ground (arith, contains-union_of z a b))
  | inr (inr e) ↦ rw (e, union_of) (ground (arith, contains-union_of z (x ∷ a) b))
]

pub union_of-IsUnion :
    (a b : List GlobalRecordId) → Ascending a → Ascending b → IsUnion (union_of a b) (a ∷ b ∷ [])
unfolding contains_any
union_of-IsUnion a b h k = record {
  order = union_of-Ascending a b h k;
  orders = (h, (k, tt));
  same_ids = λ z. ground (arith, contains-union_of z a b);
}

module _ {A B : Type 0} (I : Iterator A) (J : Iterator B) (c : Forward I) (d : Forward J) where
  union_loop_lem :
      (f limit : ℕ) (a : A) (b : B) (out la lb : List GlobalRecordId)
      → length la + length lb < f
      → Buffered c a la
      → Buffered d b lb
      → Room limit out
      → union_loop I J f limit a b (head? la) (head? lb) out ≡ limited limit (out ++ union_of la lb)
  unfolding union_loop union_of
  union_loop_lem zero limit a b out la lb h p q room = absurd (omega arith)
  union_loop_lem (suc f) limit a b out [] [] h p q room =
      rw append-nil (sym (limited_all limit out room))
  union_loop_lem (suc f) limit a b out (x ∷ la) [] h p q room =
      elim (Bool-cases (reached limit (out ++ (x ∷ [])))) [
        | inl r ↦ rw (r, union_loop) (sym (limited-reached limit out x la room r))
        | inr r ↦
            rw (r, union_loop, c.next_result a la p.rest, ← append_assoc out (x ∷ []) la)
              (union_loop_lem f limit (I.next a).0 b (out ++ (x ∷ [])) la [] (omega arith)
                  (Buffered-next c a la p.rest) q (Room-on limit out x r)
                ∙ ap (λ r. limited limit ((out ++ (x ∷ [])) ++ r)) (union_of-nil la))
      ]
  union_loop_lem (suc f) limit a b out [] (y ∷ lb) h p q room =
      elim (Bool-cases (reached limit (out ++ (y ∷ [])))) [
        | inl r ↦ rw (r, union_loop) (sym (limited-reached limit out y lb room r))
        | inr r ↦
            rw (r, union_loop, d.next_result b lb q.rest, ← append_assoc out (y ∷ []) lb)
              (union_loop_lem f limit a (J.next b).0 (out ++ (y ∷ [])) [] lb (omega arith) p
                (Buffered-next d b lb q.rest) (Room-on limit out y r))
      ]
  union_loop_lem (suc f) limit a b out (x ∷ la) (y ∷ lb) h p q room = elim (compare_cases x y) [
    | inl e ↦
        let more = union_of la (y ∷ lb) in
        rw (e, union_loop, union_of)
          (elim (Bool-cases (reached limit (out ++ (x ∷ [])))) [
            | inl r ↦ rw r (sym (limited-reached limit out x more room r))
            | inr r ↦
                rw (r, c.next_result a la p.rest, ← append_assoc out (x ∷ []) more)
                  (union_loop_lem f limit (I.next a).0 b (out ++ (x ∷ [])) la (y ∷ lb) (omega arith)
                    (Buffered-next c a la p.rest) q (Room-on limit out x r))
          ])
    | inr (inl e) ↦
        let more = union_of la lb in
        rw (e, union_loop, union_of)
          (elim (Bool-cases (reached limit (out ++ (x ∷ [])))) [
            | inl r ↦ rw r (sym (limited-reached limit out x more room r))
            | inr r ↦
                rw
                  (
                    r,
                    c.next_result a la p.rest,
                    d.next_result b lb q.rest,
                    ← append_assoc out (x ∷ []) more,
                  )
                  (union_loop_lem f limit (I.next a).0 (J.next b).0 (out ++ (x ∷ [])) la lb
                    (omega arith) (Buffered-next c a la p.rest) (Buffered-next d b lb q.rest)
                    (Room-on limit out x r))
          ])
    | inr (inr e) ↦
        let more = union_of (x ∷ la) lb in
        rw (e, union_loop, union_of)
          (elim (Bool-cases (reached limit (out ++ (y ∷ [])))) [
            | inl r ↦ rw r (sym (limited-reached limit out y more room r))
            | inr r ↦
                rw (r, d.next_result b lb q.rest, ← append_assoc out (y ∷ []) more)
                  (union_loop_lem f limit a (J.next b).0 (out ++ (y ∷ [])) (x ∷ la) lb (omega arith)
                    p (Buffered-next d b lb q.rest) (Room-on limit out y r))
          ])
  ]

  -- The two iterators' ids merged, up to the limit.
  pub union_lem :
      (a : A) (b : B) (la lb : List GlobalRecordId) (limit : ℕ)
      → c.Holds a la
      → d.Holds b lb
      → union_global_iterators I J (some a) (some b) limit ≡ limited limit (union_of la lb)
  unfolding union_global_iterators
  union_lem a b la lb limit ha hb =
      let p = Buffered-next c a la ha in
      let q = Buffered-next d b lb hb in
      rw (c.next_result a la ha, d.next_result b lb hb)
        (union_loop_lem (I.budget (I.next a).0 + J.budget (J.next b).0 + 3) limit (I.next a).0
          (J.next b).0 [] la lb (omega (arith, length-Buffered c la p, length-Buffered d lb q)) p q
          (Room-start limit))
