-- ===== src/Global/Exclusion/Laws.antt =====
-- cmd/seekfs/global_iterators.go: `globalExclusionIterator.Next` over children that keep their contract.
use seekfs.Common.{
  ℕ, zero, suc, ◌+◌, ◌≤◌, ◌<◌, ◌≡◌, refl, sym, ◌∙◌, true, false, ◌⊎◌, Bool-cases, inl, inr, Option,
  none, some, List, [], ◌∷◌, head?, tail, arith, length,
}
use seekfs.Global.Id.{GlobalRecordId, before, Ascending, drop_before}
use seekfs.Global.Iterator.{Iterator, Forward, Seeks}
use seekfs.Global.Optional.{optional_iterator, optional_forward, optional-Seeks}
use seekfs.Global.Buffered.{Buffered, Buffered-next, Buffered-seek_ge, length-Buffered}
use seekfs.Global.Sets.{
  minus, contains, contains-nil, contains_at_front, nil-minus, minus-drop_before, minus_in,
  minus_out, drop_before_nil, drop_before_stay, drop_before_head, drop_before_twice,
  length-drop_before, Ascending-minus, length-minus,
}
use seekfs.Global.Exclusion.Defs.{
  Exclusion, running, is_excluded, catch_up, loop, start, next, seek_ge, exclusion_iterator,
  new_global_exclusion_iterator,
}

module _ {B : Type 0} (J : Iterator B) (d : Forward J) (m : Seeks J d) where
  -- The excluded child catches up with `x`: it stands at the first id from `x` on.
  abbrev CaughtUp : Option B × Option GlobalRecordId → List GlobalRecordId → Type 0
  CaughtUp r l = (r.1 ≡ head? l) × Buffered (optional_forward J d) r.0 l

  catch_up-CaughtUp :
      (f : ℕ) (x : GlobalRecordId) (b : Option B) (le l : List GlobalRecordId)
      → length le < f
      → Buffered (optional_forward J d) b le
      → drop_before x le ≡ l
      → CaughtUp (catch_up J f x b (head? le)) l
  unfolding catch_up
  catch_up-CaughtUp zero x b le l h q z = absurd (omega arith)
  catch_up-CaughtUp (suc f) x b [] l h q z = rw (← z, drop_before_nil) (refl, q)
  catch_up-CaughtUp (suc f) x b (y ∷ le) l h q z = elim (Bool-cases (before y x)) [
    | inr e ↦ rw (← z, e, catch_up, drop_before_stay x y le e) (refl, q)
    | inl e ↦
        let seeks = optional-Seeks J d m in
        let b' = ((optional_iterator J).seek_ge x b).0 in
        rw (e, catch_up, seeks.seek_result x b le q.rest)
          (catch_up-CaughtUp f x b' (drop_before x le) l (omega (arith, length-drop_before x le))
            (Buffered-seek_ge (optional_forward J d) seeks x b le q.rest)
            (drop_before_twice x le ∙ sym (drop_before_head x y le e) ∙ z))
  ]

is_excluded-contains :
    (x : GlobalRecordId) (le : List GlobalRecordId)
    → Ascending le
    → is_excluded x (head? (drop_before x le)) ≡ contains x (drop_before x le)
unfolding is_excluded drop_before
is_excluded-contains x [] h = sym (contains-nil x)
is_excluded-contains x (y ∷ ys) h = elim (Bool-cases (before y x)) [
  | inl e ↦ rw e (is_excluded-contains x ys h.1)
  | inr e ↦ rw e (sym (contains_at_front x y ys e h))
]

module _ {A B : Type 0} (I : Iterator A) (J : Iterator B) (c : Forward I) (d : Forward J) where
  -- What an iterator has still to return, by its state: the included child is nil, `init` has not
  -- run, or it has.
  pub data Holding (it : Exclusion A B) (l : List GlobalRecordId) : Type 0 where
    nil_include : it.include ≡ none → l ≡ [] → Holding it l
    fresh :
        (a : A) (b : Option B) (la le : List GlobalRecordId)
        → it ≡ new_global_exclusion_iterator (some a) b
        → c.Holds a la
        → (optional_forward J d).Holds b le
        → l ≡ minus la le
        → Holding it l
    run :
        (a : A) (b : Option B) (la le : List GlobalRecordId)
        → it ≡ running a b (head? la) (head? le)
        → Buffered c a la
        → Buffered (optional_forward J d) b le
        → l ≡ minus la le
        → Holding it l

  abbrev pub Answer : Exclusion A B × Option GlobalRecordId → List GlobalRecordId → Type 0
  Answer r l = (r.1 ≡ head? l) × Holding r.0 (tail l)

  module _ (m : Seeks J d) where
    loop-Answer :
        (f : ℕ) (a : A) (b : Option B) (la le : List GlobalRecordId)
        → length la < f
        → Buffered c a la
        → Buffered (optional_forward J d) b le
        → Answer (loop I J f a b (head? la) (head? le)) (minus la le)
    unfolding loop
    loop-Answer zero a b la le h p q = absurd (omega arith)
    loop-Answer (suc f) a b [] le h p q =
        rw nil-minus (refl, run a b [] le refl p q (sym (nil-minus le)))
    loop-Answer (suc f) a b (x ∷ la) le h p q =
        step
          (catch_up-CaughtUp J d m _ x b le (drop_before x le)
            (omega (arith, length-Buffered (optional_forward J d) le q)) q refl)
          (λ q'.
            loop-Answer f (I.next a).0 caught.0 la le' (omega arith) (Buffered-next c a la p.rest)
              q')
          (Bool-cases (contains x le'))
      where
        le' : List GlobalRecordId
        le' = drop_before x le

        caught : Option B × Option GlobalRecordId
        caught = catch_up J ((optional_iterator J).budget b + 2) x b (head? le)

        step :
            CaughtUp J d m caught le'
            → (Buffered (optional_forward J d) caught.0 le'
                → Answer (loop I J f (I.next a).0 caught.0 (head? la) (head? le')) (minus la le'))
            → (contains x le' ≡ true) ⊎ (contains x le' ≡ false)
            → Answer (loop I J (suc f) a b (some x) (head? le)) (minus (x ∷ la) le)
        step (e, q') again (inl found) =
            rw
              (
                ← minus-drop_before x la le p.order,
                minus_in x la le' found,
                loop,
                e,
                is_excluded-contains x le q.order,
                found,
                e,
                c.next_result a la p.rest,
              )
              (again q')
        step (e, q') again (inr missing) =
            rw
              (
                ← minus-drop_before x la le p.order,
                minus_out x la le' missing,
                loop,
                e,
                is_excluded-contains x le q.order,
                missing,
                e,
                c.next_result a la p.rest,
              )
              (refl, run _ caught.0 la le' refl (Buffered-next c a la p.rest) q' refl)

    enough : {a : A} {la : List GlobalRecordId} → Buffered c a la → length la < I.budget a + 2
    enough {la} p = omega (arith, length-Buffered c la p)

    next_fresh :
        (a : A) (b : Option B) (la le : List GlobalRecordId)
        → c.Holds a la
        → (optional_forward J d).Holds b le
        → Answer (next I J (new_global_exclusion_iterator (some a) b)) (minus la le)
    unfolding next start new_global_exclusion_iterator
    next_fresh a b la le ha hb =
        let p = Buffered-next c a la ha in
        let q = Buffered-next (optional_forward J d) b le hb in
        rw (c.next_result a la ha, (optional_forward J d).next_result b le hb)
          (loop-Answer _ (I.next a).0 ((optional_iterator J).next b).0 la le (enough p) p q)

    next_running :
        (a : A) (b : Option B) (la le : List GlobalRecordId)
        → Buffered c a la
        → Buffered (optional_forward J d) b le
        → Answer (next I J (running a b (head? la) (head? le))) (minus la le)
    unfolding next start
    next_running a b la le p q = loop-Answer _ a b la le (enough p) p q

    next_nil_include : (it : Exclusion A B) → it.include ≡ none → next I J it ≡ (it, none)
    unfolding next
    next_nil_include it e = ground arith

    next-Answer :
        (it : Exclusion A B) (l : List GlobalRecordId) → Holding it l → Answer (next I J it) l
    next-Answer it l (nil_include e z) = rw (next_nil_include it e, z) (refl, nil_include e refl)
    next-Answer it l (fresh a b la le e ha hb z) = rw (e, z) (next_fresh a b la le ha hb)
    next-Answer it l (run a b la le e p q z) = rw (e, z) (next_running a b la le p q)

    Holding-Ascending : (it : Exclusion A B) (l : List GlobalRecordId) → Holding it l → Ascending l
    Holding-Ascending it l (nil_include e z) = rw z tt
    Holding-Ascending it l (fresh a b la le e ha hb z) =
        rw z (Ascending-minus la le (c.ascending a la ha))
    Holding-Ascending it l (run a b la le e p q z) = rw z (Ascending-minus la le p.order)

    Holding-budget :
        (it : Exclusion A B) (l : List GlobalRecordId)
        → Holding it l
        → length l ≤ (exclusion_iterator I J).budget it
    unfolding exclusion_iterator new_global_exclusion_iterator
    Holding-budget it l (nil_include e z) = rw (e, z) (omega arith)
    Holding-budget it l (fresh a b la le e ha hb z) =
        rw (e, z, new_global_exclusion_iterator)
          (omega (arith, length-minus la le, c.within a la ha))
    Holding-budget it l (run a b la le e p q z) =
        rw (e, z) (omega (arith, length-minus la le, length-Buffered c la p))

    -- `Next` returns the included ids that the other child does not return, in order.
    pub exclusion_forward : Forward (exclusion_iterator I J)
    unfolding exclusion_iterator
    exclusion_forward = record {
      Holds = Holding;
      ascending = Holding-Ascending;
      within = Holding-budget;
      next_result = λ it l h. (next-Answer it l h).0;
      next_state = λ it l h. (next-Answer it l h).1;
    }

    pub new_exclusion_holds :
        (a : A) (b : Option B) (la le : List GlobalRecordId)
        → c.Holds a la
        → (optional_forward J d).Holds b le
        → exclusion_forward.Holds (new_global_exclusion_iterator (some a) b) (minus la le)
    unfolding exclusion_forward
    new_exclusion_holds a b la le ha hb = fresh a b la le refl ha hb refl

    -- A seek answers from what the children have still to return.
    pub seek_ge-children :
        Seeks I c
        → (t : GlobalRecordId) (it : Exclusion A B) (a : A) (la le : List GlobalRecordId)
        → it.include ≡ some a
        → c.Holds a la
        → (optional_forward J d).Holds it.exclude le
        → Answer (seek_ge I J t it) (minus (drop_before t la) (drop_before t le))
    unfolding seek_ge start
    seek_ge-children k t it a la le ea ha hb =
        let p = Buffered-seek_ge c k t a la ha in
        let seeks = optional-Seeks J d m in
        let q = Buffered-seek_ge (optional_forward J d) seeks t it.exclude le hb in
        rw (ea, seek_ge, k.seek_result t a la ha, seeks.seek_result t it.exclude le hb)
          (loop-Answer _ (I.seek_ge t a).0 ((optional_iterator J).seek_ge t it.exclude).0 _ _
            (enough p) p q)
