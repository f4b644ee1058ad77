-- ===== src/Global/Filter.antt =====
-- cmd/seekfs/global_iterators.go, cmd/seekfs/global_planner_entries.go: the iterators that pass on
-- the ids of a base iterator that a test keeps. The type, subtree and path term filters seek in one
-- way (`filter_seek_ge`), the filter of hidden ids in another (`hidden_seek_ge`).
use seekfs.Common.{
  ℕ, zero, suc, ◌≤◌, ◌<◌, ◌≡◌, refl, sym, ap, subst, le_trans, ◌∙◌, Bool, true, false, Bool-cases,
  inl, inr, Option, none, some, List, [], ◌∷◌, head?, tail, arith, if◌then◌else◌, length, filter,
  length-filter, All-filter,
}
use seekfs.Global.Id.{
  GlobalRecordId, Before, Ascending, drop_before, drop_before_self, Ascending-filter,
}
use seekfs.Global.Iterator.{Iterator, Forward, Seeks}

module _ {S : Type 0} (I : Iterator S) (keep : GlobalRecordId → Bool) where
  -- `for { id, ok := base.Next(); if !ok { return false }; if keep(id) { return id } }`
  filter_loop : ℕ → S → S × Option GlobalRecordId
  filter_loop zero s = (s, none)
  filter_loop (suc f) s =
      let (s', r) = I.next s in
      elim r [
        | none ↦ (s', none)
        | some id ↦ elim (keep id) [ true ↦ (s', some id) | false ↦ filter_loop f s' ]
      ]

  filter_next : S → S × Option GlobalRecordId
  filter_next s = filter_loop (suc (I.budget s)) s

  -- `if id, ok := base.SeekGE(target); ok && keep(id) { return id, true }; return it.Next()`
  filter_seek_ge : GlobalRecordId → S → S × Option GlobalRecordId
  filter_seek_ge t s =
      let (s', r) = I.seek_ge t s in
      elim r [ none ↦ filter_next s' | some id ↦ if keep id then (s', some id) else filter_next s' ]

  -- `id, ok := base.SeekGE(target); for ok && hidden(id) { id, ok = base.Next() }; return id, ok`
  hidden_seek_ge : GlobalRecordId → S → S × Option GlobalRecordId
  hidden_seek_ge t s =
      let (s', r) = I.seek_ge t s in
      elim r [ none ↦ (s', none) | some id ↦ if keep id then (s', some id) else filter_next s' ]

  unfoldable pub filter_iterator : Iterator S
  unfolding filter_loop filter_next filter_seek_ge
  filter_iterator = record {
    next = filter_next;
    seek_ge = filter_seek_ge;
    count_hint = I.count_hint;
    budget = I.budget;
  }

  unfoldable pub hidden_iterator : Iterator S
  unfolding filter_loop filter_next hidden_seek_ge
  hidden_iterator = record {
    next = filter_next;
    seek_ge = hidden_seek_ge;
    count_hint = I.count_hint;
    budget = I.budget;
  }

module _ {S : Type 0} (I : Iterator S) (keep : GlobalRecordId → Bool) (c : Forward I) where
  -- What the filtered iterator has still to return.
  abbrev FilterHolds : S → List GlobalRecordId → Type 0
  FilterHolds s l = (base : List GlobalRecordId) × c.Holds s base × (l ≡ filter keep base)

  filter_loop_result :
      (f : ℕ) (s : S) (base : List GlobalRecordId)
      → length base < f
      → c.Holds s base
      → (filter_loop I keep f s).1 ≡ head? (filter keep base)
  unfolding filter_loop
  filter_loop_result zero s base h hold = absurd (omega arith)
  filter_loop_result (suc f) s [] h hold = rw (c.next_result s [] hold, filter_loop)
  filter_loop_result (suc f) s (x ∷ xs) h hold =
      rw (c.next_result s (x ∷ xs) hold, filter_loop)
        (elim (Bool-cases (keep x)) [
          | inl e ↦ rw e
          | inr e ↦
              rw e
                (filter_loop_result f (I.next s).0 xs (omega arith) (c.next_state s (x ∷ xs) hold))
        ])

  filter_loop_state :
      (f : ℕ) (s : S) (base : List GlobalRecordId)
      → length base < f
      → c.Holds s base
      → FilterHolds (filter_loop I keep f s).0 (tail (filter keep base))
  unfolding filter_loop
  filter_loop_state zero s base h hold = absurd (omega arith)
  filter_loop_state (suc f) s [] h hold =
      rw (c.next_result s [] hold, filter_loop) ([], c.next_state s [] hold, refl)
  filter_loop_state (suc f) s (x ∷ xs) h hold =
      let after = c.next_state s (x ∷ xs) hold in
      rw (c.next_result s (x ∷ xs) hold, filter_loop)
        (elim (Bool-cases (keep x)) [
          | inl e ↦ rw e (xs, after, refl)
          | inr e ↦ rw e (filter_loop_state f (I.next s).0 xs (omega arith) after)
        ])

  filter_next_result :
      (s : S) (base : List GlobalRecordId)
      → c.Holds s base
      → (filter_next I keep s).1 ≡ head? (filter keep base)
  unfolding filter_next
  filter_next_result s base hold =
      filter_loop_result _ s base (omega (arith, c.within s base hold)) hold

  filter_next_state :
      (s : S) (base : List GlobalRecordId)
      → c.Holds s base
      → FilterHolds (filter_next I keep s).0 (tail (filter keep base))
  unfolding filter_next
  filter_next_state s base hold =
      filter_loop_state _ s base (omega (arith, c.within s base hold)) hold

  -- A filter passes on the kept ids of its base, in order.
  pub filter_forward : Forward (filter_iterator I keep)
  unfolding filter_iterator
  filter_forward = record {
    Holds = FilterHolds;
    ascending =
        λ s l h. subst Ascending (sym h.2) (Ascending-filter keep h.0 (c.ascending s h.0 h.1));
    within = λ s l h.
        subst (λ k. length k ≤ I.budget s) (sym h.2)
          (le_trans (length-filter keep h.0) (c.within s h.0 h.1));
    next_result = λ s l h. filter_next_result s h.0 h.1 ∙ ap head? (sym h.2);
    next_state = λ s l h.
        subst (λ k. FilterHolds (filter_next I keep s).0 (tail k)) (sym h.2)
          (filter_next_state s h.0 h.1);
  }

  filter_seek_ge_result :
      (t : GlobalRecordId) (s : S) (base : List GlobalRecordId)
      → c.Holds s base
      → Seeks I c
      → (filter_seek_ge I keep t s).1 ≡ head? (filter keep (drop_before t base))
  unfolding filter_seek_ge
  filter_seek_ge_result t s base hold k =
      split (drop_before t base) (k.seek_result t s base hold) (k.seek_state t s base hold)
    where
      split :
          (l : List GlobalRecordId)
          → (I.seek_ge t s).1 ≡ head? l
          → c.Holds (I.seek_ge t s).0 (tail l)
          → (filter_seek_ge I keep t s).1 ≡ head? (filter keep l)
      split [] e h = rw (e, filter_seek_ge) (filter_next_result _ [] h)
      split (x ∷ xs) e h =
          rw (e, filter_seek_ge)
            (elim (Bool-cases (keep x)) [ inl b ↦ rw b | inr b ↦ rw b (filter_next_result _ xs h) ])

  filter_seek_ge_state :
      (t : GlobalRecordId) (s : S) (base : List GlobalRecordId)
      → c.Holds s base
      → Seeks I c
      → FilterHolds (filter_seek_ge I keep t s).0 (tail (filter keep (drop_before t base)))
  unfolding filter_seek_ge
  filter_seek_ge_state t s base hold k =
      split (drop_before t base) (k.seek_result t s base hold) (k.seek_state t s base hold)
    where
      split :
          (l : List GlobalRecordId)
          → (I.seek_ge t s).1 ≡ head? l
          → c.Holds (I.seek_ge t s).0 (tail l)
          → FilterHolds (filter_seek_ge I keep t s).0 (tail (filter keep l))
      split [] e h = rw (e, filter_seek_ge) (filter_next_state _ [] h)
      split (x ∷ xs) e h =
          rw (e, filter_seek_ge)
            (elim (Bool-cases (keep x)) [
              | inl b ↦ rw b (xs, h, refl)
              | inr b ↦ rw b (filter_next_state _ xs h)
            ])

  drop_before-filter :
      (t : GlobalRecordId) (l : List GlobalRecordId)
      → Ascending l
      → drop_before t (filter keep l) ≡ filter keep (drop_before t l)
  unfolding drop_before
  drop_before-filter t [] h = refl
  drop_before-filter t (x ∷ xs) h = ground (
    arith,
    drop_before-filter t xs h.1,
    drop_before_self t x (filter keep xs) (All-filter (Before x) keep xs h.0),
  )

  -- Over a base that seeks, a filter seeks: to the first kept id from the target on.
  pub filter-Seeks : Seeks I c → Seeks (filter_iterator I keep) filter_forward
  unfolding filter_iterator filter_forward
  filter-Seeks k = record {
    seek_result = λ t s l h.
        filter_seek_ge_result t s h.0 h.1 k
        ∙ ap head?
            (sym (drop_before-filter t h.0 (c.ascending s h.0 h.1)) ∙ ap (drop_before t) (sym h.2));
    seek_state = λ t s l h.
        subst (λ m. FilterHolds (filter_seek_ge I keep t s).0 (tail m))
          (sym (drop_before-filter t h.0 (c.ascending s h.0 h.1)) ∙ ap (drop_before t) (sym h.2))
          (filter_seek_ge_state t s h.0 h.1 k);
  }

  pub filter_holds :
      (s : S) (l : List GlobalRecordId) → c.Holds s l → filter_forward.Holds s (filter keep l)
  unfolding filter_forward
  filter_holds s l h = (l, h, refl)
