-- ===== src/Global/Intersection/Laws.antt =====
-- cmd/seekfs/global_iterators.go: `globalIntersectionIterator.Next` over children that keep their contract.
use seekfs.Common.{
  ℕ, zero, suc, ◌+◌, ◌≤◌, ◌<◌, ◌≡◌, refl, sym, inl, inr, Option, none, some, Option-cases, List, [],
  ◌∷◌, head?, tail, arith, length,
}
use seekfs.Global.Id.{
  GlobalRecordId, compare_cases, compare_lt, compare_gt, compare_eq, Ascending, drop_before,
}
use seekfs.Global.Iterator.{Iterator, Forward, Seeks}
use seekfs.Global.Buffered.{Buffered, Buffered-next, Buffered-seek_ge, length-Buffered}
use seekfs.Global.Sets.{
  common, nil-common, common-nil, common_lt, common_gt, common_eq, length-drop_before,
  length-common, Ascending-common,
}
use seekfs.Global.Intersection.Defs.{
  Intersection, running, loop, fuel, start, next, seek_ge, intersection_iterator,
  new_global_intersection_iterator,
}

module _ {A B : Type 0} (I : Iterator A) (J : Iterator B) (c : Forward I) (d : Forward J) where
  -- What an iterator has still to return, by its state: a child is nil, `init` has not run, or it has.
  pub data Holding (it : Intersection A B) (l : List GlobalRecordId) : Type 0 where
    nil_a : it.a ≡ none → l ≡ [] → Holding it l
    nil_b : it.b ≡ none → l ≡ [] → Holding it l
    fresh :
        (a : A) (b : B) (la lb : List GlobalRecordId)
        → it ≡ new_global_intersection_iterator (some a) (some b)
        → c.Holds a la
        → d.Holds b lb
        → l ≡ common la lb
        → Holding it l
    run :
        (a : A) (b : B) (la lb : List GlobalRecordId)
        → it ≡ running a b (head? la) (head? lb)
        → Buffered c a la
        → Buffered d b lb
        → l ≡ common la lb
        → Holding it l

  -- The id returned and the state left, against the list `l` of the ids still to come.
  abbrev pub Answer : Intersection A B × Option GlobalRecordId → List GlobalRecordId → Type 0
  Answer r l = (r.1 ≡ head? l) × Holding r.0 (tail l)

  enough :
      {a : A} {b : B} {la lb : List GlobalRecordId}
      → Buffered c a la
      → Buffered d b lb
      → length la + length lb < fuel I J a b
  unfolding fuel
  enough {la} {lb} p q = omega (arith, length-Buffered c la p, length-Buffered d lb q)

  module _ (k : Seeks I c) (m : Seeks J d) where
    loop-Answer :
        (f : ℕ) (a : A) (b : B) (la lb : List GlobalRecordId)
        → length la + length lb < f
        → Buffered c a la
        → Buffered d b lb
        → Answer (loop I J f a b (head? la) (head? lb)) (common la lb)
    unfolding loop
    loop-Answer zero a b la lb h p q = absurd (omega arith)
    loop-Answer (suc f) a b [] lb h p q =
        rw nil-common (refl, run a b [] lb refl p q (sym (nil-common lb)))
    loop-Answer (suc f) a b (x ∷ la) [] h p q =
        rw common-nil (refl, run a b (x ∷ la) [] refl p q (sym (common-nil (x ∷ la))))
    loop-Answer (suc f) a b (x ∷ la) (y ∷ lb) h p q = elim (compare_cases x y) [
      | inr (inl e) ↦
          let same_id = compare_eq x y e in
          rw
            (
              e,
              loop,
              ← same_id,
              common_eq x x la lb p.order,
              c.next_result a la p.rest,
              d.next_result b lb q.rest,
            )
            (
              refl,
              run _ _ la lb refl (Buffered-next c a la p.rest) (Buffered-next d b lb q.rest) refl,
            )
      | inl e ↦
          rw
            (e, loop, k.seek_result y a la p.rest, ← common_lt x y la lb (compare_lt x y e) q.order)
            (loop-Answer f (I.seek_ge y a).0 b (drop_before y la) (y ∷ lb)
              (omega (arith, length-drop_before y la)) (Buffered-seek_ge c k y a la p.rest) q)
      | inr (inr e) ↦
          rw
            (e, loop, m.seek_result x b lb q.rest, ← common_gt x y la lb (compare_gt x y e) p.order)
            (loop-Answer f a (J.seek_ge x b).0 (x ∷ la) (drop_before x lb)
              (omega (arith, length-drop_before x lb)) p (Buffered-seek_ge d m x b lb q.rest))
    ]

    next_fresh :
        (a : A) (b : B) (la lb : List GlobalRecordId)
        → c.Holds a la
        → d.Holds b lb
        → Answer (next I J (new_global_intersection_iterator (some a) (some b))) (common la lb)
    unfolding next start fuel new_global_intersection_iterator
    next_fresh a b la lb ha hb =
        let p = Buffered-next c a la ha in
        let q = Buffered-next d b lb hb in
        rw (c.next_result a la ha, d.next_result b lb hb)
          (loop-Answer _ (I.next a).0 (J.next b).0 la lb (enough p q) p q)

    next_running :
        (a : A) (b : B) (la lb : List GlobalRecordId)
        → Buffered c a la
        → Buffered d b lb
        → Answer (next I J (running a b (head? la) (head? lb))) (common la lb)
    unfolding next start fuel
    next_running a b la lb p q = loop-Answer _ a b la lb (enough p q) p q

    next_nil_a : (it : Intersection A B) → it.a ≡ none → next I J it ≡ (it, none)
    unfolding next
    next_nil_a it e = ground arith

    next_nil_b : (it : Intersection A B) → it.b ≡ none → next I J it ≡ (it, none)
    unfolding next
    next_nil_b it e = elim (Option-cases it.a) [ inl n ↦ ground arith | inr (a, s) ↦ ground arith ]

    next-Answer :
        (it : Intersection A B) (l : List GlobalRecordId) → Holding it l → Answer (next I J it) l
    next-Answer it l (nil_a e z) = rw (next_nil_a it e, z) (refl, nil_a e refl)
    next-Answer it l (nil_b e z) = rw (next_nil_b it e, z) (refl, nil_b e refl)
    next-Answer it l (fresh a b la lb e ha hb z) = rw (e, z) (next_fresh a b la lb ha hb)
    next-Answer it l (run a b la lb e p q z) = rw (e, z) (next_running a b la lb p q)

    Holding-Ascending :
        (it : Intersection A B) (l : List GlobalRecordId) → Holding it l → Ascending l
    Holding-Ascending it l (nil_a e z) = rw z tt
    Holding-Ascending it l (nil_b e z) = rw z tt
    Holding-Ascending it l (fresh a b la lb e ha hb z) =
        rw z (Ascending-common la lb (c.ascending a la ha))
    Holding-Ascending it l (run a b la lb e p q z) = rw z (Ascending-common la lb p.order)

    Holding-budget :
        (it : Intersection A B) (l : List GlobalRecordId)
        → Holding it l
        → length l ≤ (intersection_iterator I J).budget it
    unfolding intersection_iterator new_global_intersection_iterator
    Holding-budget it l (nil_a e z) = rw (e, z) (omega arith)
    Holding-budget it l (nil_b e z) = rw z (omega arith)
    Holding-budget it l (fresh a b la lb e ha hb z) =
        rw (e, z, new_global_intersection_iterator)
          (omega (arith, length-common la lb, c.within a la ha))
    Holding-budget it l (run a b la lb e p q z) =
        rw (e, z) (omega (arith, length-common la lb, length-Buffered c la p))

    -- `Next` returns the common ids of the two children, in order.
    pub intersection_forward : Forward (intersection_iterator I J)
    unfolding intersection_iterator
    intersection_forward = record {
      Holds = Holding;
      ascending = Holding-Ascending;
      within = Holding-budget;
      next_result = λ it l h. (next-Answer it l h).0;
      next_state = λ it l h. (next-Answer it l h).1;
    }

    pub new_intersection_holds :
        (a : A) (b : B) (la lb : List GlobalRecordId)
        → c.Holds a la
        → d.Holds b lb
        → intersection_forward.Holds
            (new_global_intersection_iterator (some a) (some b))
            (common la lb)
    unfolding intersection_forward
    new_intersection_holds a b la lb ha hb = fresh a b la lb refl ha hb refl

    -- A seek answers from what the children have still to return: before the first `Next` that is
    -- all there is.
    pub seek_ge-children :
        (t : GlobalRecordId) (it : Intersection A B) (a : A) (b : B) (la lb : List GlobalRecordId)
        → it.a ≡ some a
        → it.b ≡ some b
        → c.Holds a la
        → d.Holds b lb
        → Answer (seek_ge I J t it) (common (drop_before t la) (drop_before t lb))
    unfolding seek_ge start fuel
    seek_ge-children t it a b la lb ea eb ha hb =
        let p = Buffered-seek_ge c k t a la ha in
        let q = Buffered-seek_ge d m t b lb hb in
        rw (ea, seek_ge, eb, k.seek_result t a la ha, m.seek_result t b lb hb)
          (loop-Answer _ (I.seek_ge t a).0 (J.seek_ge t b).0 _ _ (enough p q) p q)
