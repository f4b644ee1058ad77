-- ===== src/Global/Slice.antt =====
-- cmd/seekfs/global_planner_entries.go: `globalIDSliceIterator`, over a slice of ids.
use seekfs.Common.{
  ℕ, ◌+◌, ◌-◌, ◌≤◌, ◌≡◌, refl, sym, ap, ◌∙◌, Option, none, List, [], ◌∷◌, head?, tail, arith, leb,
  if◌then◌else◌, length, drop, get_elem?, length-drop, head?-drop, tail-drop, drop_past,
}
use seekfs.Global.Id.{
  GlobalRecordId, before, Ascending, drop_before, Ascending-tail, Ascending-drop_before,
}
use seekfs.Global.Iterator.{Iterator, Forward, Seeks}

pub record GlobalIdSlice : Type 0 where
  pub ids : List GlobalRecordId
  pub pos : ℕ

unfoldable pub new_global_id_slice : List GlobalRecordId → GlobalIdSlice
new_global_id_slice ids = record { ids = ids; pos = 0 }

slice_count_hint : GlobalIdSlice → ℕ
slice_count_hint it = if leb (length it.ids) it.pos then 0 else length it.ids - it.pos

slice_next : GlobalIdSlice → GlobalIdSlice × Option GlobalRecordId
slice_next it =
    if leb (length it.ids) it.pos
    then (it, none)
    else (record it { pos = it.pos + 1 }, get_elem? it.ids it.pos)

-- The loop of `SeekGE`; the list is what stands from `pos` on.
slice_skip : GlobalRecordId → List GlobalRecordId → ℕ → ℕ
slice_skip t [] pos = pos
slice_skip t (x ∷ xs) pos = if before x t then slice_skip t xs (pos + 1) else pos

slice_seek_ge : GlobalRecordId → GlobalIdSlice → GlobalIdSlice × Option GlobalRecordId
slice_seek_ge t it = slice_next (record it { pos = slice_skip t (drop it.pos it.ids) it.pos })

unfoldable pub slice_iterator : Iterator GlobalIdSlice
unfolding slice_next slice_skip slice_seek_ge slice_count_hint
slice_iterator = record {
  next = slice_next;
  seek_ge = slice_seek_ge;
  count_hint = slice_count_hint;
  budget = λ it. length it.ids - it.pos;
}

-- The ids from `pos` on, which ascend.
abbrev SliceHolds : GlobalIdSlice → List GlobalRecordId → Type 0
SliceHolds it l = (l ≡ drop it.pos it.ids) × Ascending l

slice_next_result : (it : GlobalIdSlice) → (slice_next it).1 ≡ head? (drop it.pos it.ids)
unfolding slice_next
slice_next_result it = ground (arith, head?-drop it.pos it.ids, drop_past it.pos it.ids)

slice_next_state :
    (it : GlobalIdSlice)
    → drop (slice_next it).0.pos (slice_next it).0.ids ≡ tail (drop it.pos it.ids)
unfolding slice_next
slice_next_state it = ground (arith, tail-drop it.pos it.ids, drop_past it.pos it.ids)

slice_skip_lem :
    (t : GlobalRecordId) (ids l : List GlobalRecordId) (pos : ℕ)
    → drop pos ids ≡ l
    → drop (slice_skip t l pos) ids ≡ drop_before t l
unfolding slice_skip drop_before
slice_skip_lem t ids [] pos e = e
slice_skip_lem t ids (x ∷ xs) pos e =
    ground (arith, slice_skip_lem t ids xs (pos + 1) (sym (tail-drop pos ids) ∙ ap tail e))

slice_within :
    (it : GlobalIdSlice) (l : List GlobalRecordId)
    → SliceHolds it l
    → length l ≤ length it.ids - it.pos
slice_within it l h = omega (arith, ap length h.0, length-drop it.pos it.ids)

pub slice_forward : Forward slice_iterator
unfolding slice_iterator
slice_forward = record {
  Holds = SliceHolds;
  ascending = λ it l h. h.1;
  within = slice_within;
  next_result = λ it l h. slice_next_result it ∙ ap head? (sym h.0);
  next_state = λ it l h. (ap tail h.0 ∙ sym (slice_next_state it), Ascending-tail l h.1);
}

-- A slice of ascending ids seeks forward from where it stands, to the first id from the target on.
pub slice-Seeks : Seeks slice_iterator slice_forward
unfolding slice_iterator slice_forward
slice-Seeks = record {
  seek_result = λ t it l h.
      slice_next_result (record it { pos = slice_skip t (drop it.pos it.ids) it.pos })
      ∙ ap head? (slice_skip_lem t it.ids (drop it.pos it.ids) it.pos refl)
      ∙ ap (λ k. head? (drop_before t k)) (sym h.0);
  seek_state = λ t it l h. (
    ap (λ k. tail (drop_before t k)) h.0
        ∙ sym (
            slice_next_state (record it { pos = slice_skip t (drop it.pos it.ids) it.pos })
            ∙ ap tail (slice_skip_lem t it.ids (drop it.pos it.ids) it.pos refl)),
    Ascending-tail _ (Ascending-drop_before t l h.1),
  );
}

pub new_global_id_slice_holds :
    (ids : List GlobalRecordId) → Ascending ids → slice_forward.Holds (new_global_id_slice ids) ids
unfolding slice_forward new_global_id_slice
new_global_id_slice_holds ids h = (refl, h)
