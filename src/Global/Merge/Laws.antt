-- ===== src/Global/Merge/Laws.antt =====
-- cmd/seekfs/global_iterators.go: `globalMergeIterator` over children that keep their contract.
use seekfs.Common.{
  ◌≤◌, ◌≡◌, refl, sym, ap, ap₂, ◌∙◌, Bool-cases, inl, inr, Option, none, some, List, [], ◌∷◌, map,
  head?, tail, arith, if◌then◌else◌, length, le_trans,
}
use seekfs.Global.Id.{GlobalRecordId, before, drop_before}
use seekfs.Global.Iterator.{Iterator, Forward, Seeks}
use seekfs.Global.Buffered.{Buffered, Buffered-next, Buffered-seek_ge, length-Buffered}
use seekfs.Global.Sets.{same, contains-nil, drop_before_stay, drop_before_head, drop_before_nil}
use seekfs.Global.UnionFrom.{IsUnion-drop_before}
use seekfs.Global.Union.{
  IsUnion, IsUnion-From, IsUnion-tail, length-union, behead, total, contains_self,
}
use seekfs.Global.Merge.Defs.{
  Slot, new_global_merge_iterator, advance_all, next, seek_all, seek_ge, budget, merge_iterator,
}
use seekfs.Global.Merge.Best.{Line, slots_of, ids_of, best_none, best_least}

module _ {S : Type 0} (I : Iterator S) (c : Forward I) where
  abbrev pub Held : List (Line S) → Type 0
  Held [] = Unit {0}
  Held ((s, l) ∷ lines) = Buffered c s l × Held lines

  -- What the iterator has still to return: the union of what its slots stand for.
  pub record Holding (slots : List (Slot S)) (l : List GlobalRecordId) : Type 0 where
    lines : List (Line S)
    slots_eq : slots ≡ slots_of lines
    held : Held lines
    union : IsUnion l (ids_of lines)

  abbrev advance_line : GlobalRecordId → Line S → Line S
  advance_line x (s, []) = (s, [])
  advance_line x (s, y ∷ l) = if same y x then ((I.next s).0, l) else (s, y ∷ l)

  abbrev advance_lines : GlobalRecordId → List (Line S) → List (Line S)
  advance_lines x [] = []
  advance_lines x (line ∷ lines) = advance_line x line ∷ advance_lines x lines

  advance_all-slots_of :
      (x : GlobalRecordId) (lines : List (Line S))
      → Held lines
      → advance_all I x (slots_of lines) ≡ slots_of (advance_lines x lines)
  unfolding advance_all
  advance_all-slots_of x [] h = refl
  advance_all-slots_of x ((s, []) ∷ lines) h =
      ap (λ r. (s, none) ∷ r) (advance_all-slots_of x lines h.1)
  advance_all-slots_of x ((s, y ∷ l) ∷ lines) h = elim (Bool-cases (same y x)) [
    | inl e ↦ rw (e, advance_all-slots_of x lines h.1, ← c.next_result s l h.0.rest)
    | inr e ↦ rw (e, advance_all-slots_of x lines h.1)
  ]

  ids_of-advance_lines :
      (x : GlobalRecordId) (lines : List (Line S))
      → ids_of (advance_lines x lines) ≡ map (behead x) (ids_of lines)
  unfolding behead
  ids_of-advance_lines x [] = refl
  ids_of-advance_lines x ((s, []) ∷ lines) = ap (λ r. [] ∷ r) (ids_of-advance_lines x lines)
  ids_of-advance_lines x ((s, y ∷ l) ∷ lines) = elim (Bool-cases (same y x)) [
    | inl e ↦ rw (e, ids_of-advance_lines x lines)
    | inr e ↦ rw (e, ids_of-advance_lines x lines)
  ]

  advance_lines-Held :
      (x : GlobalRecordId) (lines : List (Line S)) → Held lines → Held (advance_lines x lines)
  advance_lines-Held x [] h = tt
  advance_lines-Held x ((s, []) ∷ lines) h = (h.0, advance_lines-Held x lines h.1)
  advance_lines-Held x ((s, y ∷ l) ∷ lines) h =
      let rest = advance_lines-Held x lines h.1 in
      elim (Bool-cases (same y x)) [
        | inl e ↦ rw e (Buffered-next c s l h.0.rest, rest)
        | inr e ↦ rw e (h.0, rest)
      ]

  -- The id returned and the slots left, against the list `l` of the ids still to come.
  abbrev Answer : List (Slot S) × Option GlobalRecordId → List GlobalRecordId → Type 0
  Answer r l = (r.1 ≡ head? l) × Holding r.0 (tail l)

  next_lines :
      (lines : List (Line S)) (l : List GlobalRecordId)
      → Held lines
      → IsUnion l (ids_of lines)
      → Answer (next I (slots_of lines)) l
  unfolding next
  next_lines lines [] h u =
      rw (best_none lines none (λ z. sym (u.same_ids z) ∙ contains-nil z), next)
        (refl, record { lines = lines; slots_eq = refl; held = h; union = u })
  next_lines lines (x ∷ l) h u =
      rw
        (
          best_least x lines none (IsUnion-From x l _ u) u.orders tt
              (inr (sym (u.same_ids x) ∙ contains_self x l)),
          next,
        )
        (
          refl,
          record {
            lines = advance_lines x lines;
            slots_eq = advance_all-slots_of x lines h;
            held = advance_lines-Held x lines h;
            union = rw (ids_of-advance_lines x lines) (IsUnion-tail x l _ u);
          },
        )

  next-Answer :
      (slots : List (Slot S)) (l : List GlobalRecordId) → Holding slots l → Answer (next I slots) l
  next-Answer slots l h = rw h.slots_eq (next_lines h.lines l h.held h.union)

  budget-total :
      (lines : List (Line S)) → Held lines → total (ids_of lines) ≤ budget I (slots_of lines)
  unfolding budget total
  budget-total [] h = omega arith
  budget-total ((s, l) ∷ lines) h = omega (arith, length-Buffered c l h.0, budget-total lines h.1)

  Holding-budget :
      (slots : List (Slot S)) (l : List GlobalRecordId)
      → Holding slots l
      → length l ≤ budget I slots
  Holding-budget slots l h =
      rw h.slots_eq (le_trans (length-union l _ h.union) (budget-total h.lines h.held))

  pub merge_forward : Forward (merge_iterator I)
  unfolding merge_iterator
  merge_forward = record {
    Holds = Holding;
    ascending = λ slots l h. h.union.order;
    within = Holding-budget;
    next_result = λ slots l h. (next-Answer slots l h).0;
    next_state = λ slots l h. (next-Answer slots l h).1;
  }

  abbrev seek_line : GlobalRecordId → Line S → Line S
  seek_line t (s, []) = (s, [])
  seek_line t (s, y ∷ l) = if before y t then ((I.seek_ge t s).0, drop_before t l) else (s, y ∷ l)

  abbrev seek_lines : GlobalRecordId → List (Line S) → List (Line S)
  seek_lines t [] = []
  seek_lines t (line ∷ lines) = seek_line t line ∷ seek_lines t lines

  ids_of-seek_lines :
      (t : GlobalRecordId) (lines : List (Line S))
      → ids_of (seek_lines t lines) ≡ map (drop_before t) (ids_of lines)
  ids_of-seek_lines t [] = refl
  ids_of-seek_lines t ((s, []) ∷ lines) =
      ap₂ ◌∷◌ (sym (drop_before_nil t)) (ids_of-seek_lines t lines)
  ids_of-seek_lines t ((s, y ∷ l) ∷ lines) = elim (Bool-cases (before y t)) [
    | inl e ↦ rw (e, ids_of-seek_lines t lines, drop_before_head t y l e)
    | inr e ↦ rw (e, ids_of-seek_lines t lines, drop_before_stay t y l e)
  ]

  module _ (k : Seeks I c) where
    seek_all-slots_of :
        (t : GlobalRecordId) (lines : List (Line S))
        → Held lines
        → seek_all I t (slots_of lines) ≡ slots_of (seek_lines t lines)
    unfolding seek_all
    seek_all-slots_of t [] h = refl
    seek_all-slots_of t ((s, []) ∷ lines) h =
        ap (λ r. (s, none) ∷ r) (seek_all-slots_of t lines h.1)
    seek_all-slots_of t ((s, y ∷ l) ∷ lines) h = elim (Bool-cases (before y t)) [
      | inl e ↦ rw (e, seek_all-slots_of t lines h.1, ← k.seek_result t s l h.0.rest)
      | inr e ↦ rw (e, seek_all-slots_of t lines h.1)
    ]

    seek_lines-Held :
        (t : GlobalRecordId) (lines : List (Line S)) → Held lines → Held (seek_lines t lines)
    seek_lines-Held t [] h = tt
    seek_lines-Held t ((s, []) ∷ lines) h = (h.0, seek_lines-Held t lines h.1)
    seek_lines-Held t ((s, y ∷ l) ∷ lines) h =
        let rest = seek_lines-Held t lines h.1 in
        elim (Bool-cases (before y t)) [
          | inl e ↦ rw e (Buffered-seek_ge c k t s l h.0.rest, rest)
          | inr e ↦ rw e (h.0, rest)
        ]

    seek_ge-Answer :
        (t : GlobalRecordId) (slots : List (Slot S)) (l : List GlobalRecordId)
        → Holding slots l
        → Answer (seek_ge I t slots) (drop_before t l)
    unfolding seek_ge
    seek_ge-Answer t slots l h =
        rw (h.slots_eq, seek_all-slots_of t h.lines h.held)
          (next_lines (seek_lines t h.lines) (drop_before t l) (seek_lines-Held t h.lines h.held)
            (rw (ids_of-seek_lines t h.lines) (IsUnion-drop_before t l _ h.union)))

    -- Over children that seek, a merge seeks: to the first id of their union from the target on.
    pub merge-Seeks : Seeks (merge_iterator I) merge_forward
    unfolding merge_iterator merge_forward
    merge-Seeks = record {
      seek_result = λ t slots l h. (seek_ge-Answer t slots l h).0;
      seek_state = λ t slots l h. (seek_ge-Answer t slots l h).1;
    }

  -- The children of a merge, each with what it has to return; a missing child has nothing.
  abbrev pub Children : List (Option S) → List (List GlobalRecordId) → Type 0
  Children [] [] = Unit {0}
  Children [] (l ∷ ls) = ⊥
  Children (none ∷ children) ls = Children children ls
  Children (some s ∷ children) [] = ⊥
  Children (some s ∷ children) (l ∷ ls) = c.Holds s l × Children children ls

  Children-lines :
      (children : List (Option S)) (ls : List (List GlobalRecordId))
      → Children children ls
      → (lines : List (Line S)) × (new_global_merge_iterator I children ≡ slots_of lines)
        × Held lines
        × (ids_of lines ≡ ls)
  unfolding new_global_merge_iterator
  Children-lines [] [] h = ([], refl, tt, refl)
  Children-lines [] (l ∷ ls) h = absurd h
  Children-lines (none ∷ children) ls h = Children-lines children ls h
  Children-lines (some s ∷ children) [] h = absurd h
  Children-lines (some s ∷ children) (l ∷ ls) (hs, h) =
      let (lines, e, held, i) = Children-lines children ls h in
      (
        ((I.next s).0, l) ∷ lines,
        ap₂ (λ r rs. ((I.next s).0, r) ∷ rs) (c.next_result s l hs) e,
        (Buffered-next c s l hs, held),
        ap (λ r. l ∷ r) i,
      )

  pub new_merge_holds :
      (children : List (Option S)) (ls : List (List GlobalRecordId)) (l : List GlobalRecordId)
      → Children children ls
      → IsUnion l ls
      → merge_forward.Holds (new_global_merge_iterator I children) l
  unfolding merge_forward
  new_merge_holds children ls l h u =
      let (lines, e, held, i) = Children-lines children ls h in
      record { lines = lines; slots_eq = e; held = held; union = rw i u }
