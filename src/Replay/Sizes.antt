-- ===== src/Replay/Sizes.antt =====
-- cmd/seekfs/service_replay.go: the sizes that records add to their ancestors, and the subtree of a deleted
-- base record.
use seekfs.Common.{
  ℕ, zero, suc, ℤ, pos, ◌+◌, Bool, true, false, ◌||◌, ◌&&◌, not, Option, none, some, List, [], ◌∷◌,
  length, is_zero, get_or, get_elem?, ltb, leb, ◌==◌, if◌then◌else◌,
}
use seekfs.Spool.Words.{to_int64}
use seekfs.Spool.Order.{int_less}
use seekfs.Replay.BaseIds.{OverlayBaseIdSet, add, add_all, contains}
use seekfs.Replay.Volume.{
  CompactRecord, Base, OverlaySegment, Volume, put, is_dir, int_add, compact_record, record_count,
  id_for_frn, slice, child_ids_for_record,
}

-- The record of the overlay's entry, where the slot is one of the records'.
unfoldable pub overlay_record : OverlaySegment → ℕ → Option CompactRecord
overlay_record overlay frn = elim (overlay.by_frn frn) [
  | none ↦ none
  | some slot ↦ get_elem? overlay.records slot
]

-- `for _, childID := range children { stack = append(stack, childID) }`
unfoldable pub push_all : List ℕ → List ℕ → List ℕ
push_all [] stack = stack
push_all (id ∷ ids) stack = push_all ids (id ∷ stack)

module _ (base : Base) where
  unfoldable pub base_dir_recursive_size : Volume → ℕ → ℤ
  base_dir_recursive_size vol id =
      let size = int_add (to_int64 (get_or base.subtree_bytes id 0)) (vol.dir_size_delta id) in
      if leb (length base.subtree_bytes) id
      then pos 0
      else if int_less size (pos 0)
      then pos 0
      else size

  -- The size that a base record adds, where the reference has one.
  abbrev pub base_accounting_size : Volume → ℕ → ℤ
  base_accounting_size vol frn = elim (id_for_frn base frn) [
    | none ↦ pos 0
    | some id ↦
        let rec = compact_record base id in
        if is_dir rec then base_dir_recursive_size vol id else rec.size
  ]

  abbrev pub overlay_accounting_size : Volume → ℕ → CompactRecord → ℤ
  overlay_accounting_size vol frn rec =
      if rec.deleted
      then pos 0
      else if not (is_dir rec)
      then rec.size
      else elim (id_for_frn base frn) [ none ↦ pos 0 | some id ↦ base_dir_recursive_size vol id ]

  unfoldable pub effective_accounting_size : Volume → ℕ → ℤ
  effective_accounting_size vol frn =
      if frn == 0 then pos 0 else elim (overlay_record vol.overlay frn) [
        | some rec ↦ overlay_accounting_size vol frn rec
        | none ↦ base_accounting_size vol frn
      ]

  unfoldable pub effective_parent_frn : Volume → ℕ → ℕ
  effective_parent_frn vol frn = if frn == 0 then 0 else elim (overlay_record vol.overlay frn) [
    | some rec ↦ rec.parent_frn
    | none ↦ elim (id_for_frn base frn) [ none ↦ 0 | some id ↦ (compact_record base id).parent_frn ]
  ]

  -- `for depth := 0; depth < 4096 && dirFRN != 0; depth++`, for the rounds that are left.
  unfoldable pub ancestor_loop : ℕ → OverlaySegment → (ℕ → ℤ) → ℕ → ℤ → ℕ → ℤ
  ancestor_loop zero overlay sizes dir delta = sizes
  ancestor_loop (suc rounds) overlay sizes dir delta = elim (dir == 0) [
    | true ↦ sizes
    | false ↦ elim (overlay_record overlay dir) [
      | some rec ↦ ancestor_loop rounds overlay sizes rec.parent_frn delta
      | none ↦ elim (id_for_frn base dir) [
        | none ↦ sizes
        | some id ↦
            let added = put sizes id (int_add (sizes id) delta) in
            let next = (compact_record base id).parent_frn in
            elim (next == dir) [
              | true ↦ added
              | false ↦ ancestor_loop rounds overlay added next delta
            ]
      ]
    ]
  ]

  unfoldable pub add_ancestor_dir_delta : Volume → ℕ → ℤ → Volume
  add_ancestor_dir_delta vol dir delta = if is_zero delta || (dir == 0) then vol else record vol {
    dir_size_delta = ancestor_loop 4096 vol.overlay vol.dir_size_delta dir delta;
  }

  -- `for len(stack) > 0`, with the top of the stack first; `none` is the end of the fuel.
  unfoldable pub tombstone_loop : ℕ → OverlayBaseIdSet → List ℕ → Option OverlayBaseIdSet
  tombstone_loop zero set stack = none
  tombstone_loop (suc fuel) set [] = some set
  tombstone_loop (suc fuel) set (id ∷ stack) =
      elim (leb (record_count base) id || contains set id) [
        | true ↦ tombstone_loop fuel set stack
        | false ↦ tombstone_loop fuel (add set id) (push_all (child_ids_for_record base id) stack)
      ]

  -- The children that the loop can still push, of the records below `n` that are not in the set.
  unfoldable pub pending : ℕ → OverlayBaseIdSet → ℕ
  pending zero set = 0
  pending (suc n) set =
      (if contains set n then 0 else length (child_ids_for_record base n)) + pending n set

  -- The columns of the subtree give its records, where they have the root.
  abbrev pub has_subtree : ℕ → Bool
  has_subtree root =
      let start = get_or base.subtree_start root 0 in
      let end = get_or base.subtree_end root 0 in
      ltb root (length base.subtree_start)
      && (ltb root (length base.subtree_end))
      && (ltb 0 (length base.subtree_order))
      && (not (start == 4294967295) && leb start end && leb end (length base.subtree_order))

  unfoldable pub tombstone_base_subtree : OverlayBaseIdSet → ℕ → Option OverlayBaseIdSet
  tombstone_base_subtree set root =
      if leb (record_count base) root
      then some set
      else if has_subtree root
      then some (
          add_all set (
            slice base base.subtree_order (get_or base.subtree_start root 0)
              (get_or base.subtree_end root 0)))
      else tombstone_loop (pending (record_count base) set + 2) set (root ∷ [])
