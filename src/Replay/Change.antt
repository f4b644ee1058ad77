-- ===== src/Replay/Change.antt =====
-- cmd/seekfs/service_replay.go: `recordOverlayChange` with `refreshOverlayFileInfo`, `applyUSNChanges`, and of
-- `replayBinaryWAL` in service_state.go the loop over the batches it has decoded. `fuel` bounds the
-- recursion of `overlayRecordPath`; `none` is the end of a fuel.
use seekfs.Common.{
  ℕ, ℤ, negsuc, ◌+◌, Bool, true, false, ◌&&◌, ◌||◌, not, Option, none, some, List, [], ◌∷◌, ◌++◌,
  length, is_zero, get_or, set, leb, ◌==◌, if◌then◌else◌,
}
use seekfs.Spool.Order.{int_less}
use seekfs.Wal.Batch.{UsnChange, WalBatch}
use seekfs.Replay.BaseIds.{add}
use seekfs.Replay.Volume.{
  CompactRecord, no_record, Base, OverlaySegment, Volume, lookup, put, is_delete, is_rename_old,
  is_rename_new, needs_info_refresh, mode_from_attrs, is_dir, int_negate, compact_record,
  id_for_frn,
}
use seekfs.Replay.Path.{Host, is_empty, overlay_record_path}
use seekfs.Replay.Owned.{consume_owned_replay_change}
use seekfs.Replay.Sizes.{
  overlay_record, effective_accounting_size, effective_parent_frn, add_ancestor_dir_delta,
  tombstone_base_subtree,
}
use seekfs.Replay.Cascade.{cascade_overlay_delete}

-- `firstNonZeroFRN`, of two.
abbrev pub first_non_zero_frn : ℕ → ℕ → ℕ
first_non_zero_frn a b = if not (a == 0) then a else b

-- `if rec.Name == ""`
abbrev pub name_or : List ℕ → List ℕ → List ℕ
name_or [] other = other
name_or (b ∷ name) other = b ∷ name

abbrev pub with_overlay : Volume → OverlaySegment → Volume
with_overlay vol overlay = record vol { overlay = overlay }

-- `overlay.byFRN[frn] = len(overlay.records)` and the append of the record.
unfoldable pub append_record : OverlaySegment → CompactRecord → OverlaySegment
append_record overlay rec = record overlay {
  by_frn = put overlay.by_frn rec.frn (some (length overlay.records));
  records = overlay.records ++ (rec ∷ []);
}

abbrev pub with_watermark : OverlaySegment → OverlaySegment
with_watermark overlay = record overlay { watermark = length overlay.records }

-- The record of a deleted file: what the change does not say, the overlay's record says.
unfoldable pub deletion : UsnChange → Option CompactRecord → CompactRecord
deletion c none = record no_record {
  frn = c.frn;
  parent_frn = c.parent_frn;
  name = c.name;
  deleted = true;
}
deletion c (some prev) = record no_record {
  frn = c.frn;
  parent_frn = first_non_zero_frn c.parent_frn prev.parent_frn;
  name = name_or c.name prev.name;
  deleted = true;
}

-- `lastChange`, from the change at `i` on.
unfoldable pub last_change : ℕ → List UsnChange → List (ℕ × ℕ)
last_change i [] = []
last_change i (c ∷ changes) =
    let later = last_change (i + 1) changes in
    if c.frn == 0
    then later
    else elim (lookup c.frn later) [ some j ↦ later | none ↦ (c.frn, i) ∷ later ]

-- `i == lastChange[change.FRN]`, where a missing key reads 0.
unfoldable pub is_last : List (ℕ × ℕ) → ℕ → ℕ → Bool
is_last last i frn = elim (lookup frn last) [ none ↦ i == 0 | some j ↦ i == j ]

-- `if change.USN > vol.checkpoint`
unfoldable pub advance : Volume → ℤ → Volume
advance vol usn = if int_less vol.checkpoint usn then record vol { checkpoint = usn } else vol

module _ (base : Base) where
  -- The base has a record, and it is no directory's.
  abbrev pub base_file : Option ℕ → Bool
  base_file none = false
  base_file (some id) = not (is_dir (compact_record base id))

  abbrev pub has_base : Option ℕ → Bool
  has_base none = false
  has_base (some id) = true

  -- The records that there are of the reference say that it is no directory.
  unfoldable pub proven_file : Option ℕ → Option CompactRecord → Bool
  proven_file id none = base_file id
  proven_file id (some prev) =
      if prev.deleted
      then base_file id
      else if is_dir prev
      then false
      else if has_base id
      then base_file id
      else true

  -- The base record of the deleted reference and those below it.
  unfoldable pub tombstoned : OverlaySegment → Option ℕ → Option OverlaySegment
  tombstoned overlay none = some overlay
  tombstoned overlay (some id) = elim (tombstone_base_subtree base overlay.tombstone id) [
    | none ↦ none
    | some marked ↦ some (record overlay { tombstone = marked })
  ]

  -- The overlay behind a deletion; `none` is the end of the fuel.
  unfoldable pub delete_in_overlay : OverlaySegment → UsnChange → Option OverlaySegment
  delete_in_overlay overlay c =
      let prev = overlay_record overlay c.frn in
      let id = id_for_frn base c.frn in
      elim (tombstoned (append_record overlay (deletion c prev)) id) [
        | none ↦ none
        | some marked ↦ elim (proven_file id prev) [
          | true ↦ some (with_watermark marked)
          | false ↦ elim (cascade_overlay_delete base marked c.frn) [
            | none ↦ none
            | some after ↦ some (with_watermark after)
          ]
        ]
      ]

  unfoldable pub record_deletion : Volume → UsnChange → Option Volume
  record_deletion vol c =
      let before = effective_accounting_size base vol c.frn in
      let old_parent = effective_parent_frn base vol c.frn in
      let rec = deletion c (overlay_record vol.overlay c.frn) in
      elim (delete_in_overlay vol.overlay c) [
        | none ↦ none
        | some overlay ↦ some (
            if is_zero before
            then with_overlay vol overlay
            else add_ancestor_dir_delta base (with_overlay vol overlay)
                (first_non_zero_frn rec.parent_frn old_parent) (int_negate before))
      ]

  -- The record of a changed file: what the change does not say, the base record says.
  unfoldable pub changed_record : UsnChange → Option ℕ → CompactRecord
  changed_record c none = record no_record {
    frn = c.frn;
    parent_frn = c.parent_frn;
    parent = negsuc 0;
    name = c.name;
    mode = mode_from_attrs c.attr;
  }
  changed_record c (some id) =
      let old = compact_record base id in
      record no_record {
        frn = c.frn;
        parent_frn = first_non_zero_frn c.parent_frn old.parent_frn;
        parent = negsuc 0;
        name = name_or c.name old.name;
        mode = mode_from_attrs c.attr;
        size = old.size;
        mod_unix = old.mod_unix;
      }

  unfoldable pub shadow : OverlaySegment → Option ℕ → OverlaySegment
  shadow overlay none = overlay
  shadow overlay (some id) = record overlay { shadowed = add overlay.shadowed id }

  -- The sizes behind a change that is no deletion, with the overlay behind it.
  unfoldable pub account_update : Volume → UsnChange → OverlaySegment → Volume
  account_update vol c overlay =
      let before = effective_accounting_size base vol c.frn in
      let old_parent = effective_parent_frn base vol c.frn in
      let next = with_overlay (record vol { compact_attrs = true }) overlay in
      let after = effective_accounting_size base next c.frn in
      let after_parent =
        (get_or overlay.records (length vol.overlay.records) no_record).parent_frn in
      let left =
        if is_zero before
        then next
        else add_ancestor_dir_delta base next old_parent (int_negate before) in
      if is_zero after
      then left
      else add_ancestor_dir_delta base left (first_non_zero_frn after_parent old_parent) after

  -- What a path gives of its file is stored in the record; a path that is empty, nothing.
  unfoldable pub with_info : Host → OverlaySegment → ℕ → List ℕ → OverlaySegment
  with_info host overlay slot [] = overlay
  with_info host overlay slot (b ∷ path) = elim (host.stat slot (b ∷ path)) [
    | none ↦ overlay
    | some (size, mod_unix) ↦ record overlay {
      records =
          set overlay.records slot
            (record (get_or overlay.records slot no_record) { size = size; mod_unix = mod_unix });
    }
  ]

  module _ (host : Host) (fuel : ℕ) where
    -- `none` is the end of the fuel of `overlay_record_path`.
    unfoldable pub refresh_overlay_file_info : OverlaySegment → ℕ → Option OverlaySegment
    refresh_overlay_file_info overlay slot =
        elim (is_empty host.volume || leb (length overlay.records) slot) [
          | true ↦ some overlay
          | false ↦
              elim (overlay_record_path host base fuel overlay.records overlay.by_frn [] slot) [
                | none ↦ none
                | some path ↦ some (with_info host overlay slot path)
              ]
        ]

    -- The overlay behind a change that is no deletion.
    unfoldable pub change_in_overlay : OverlaySegment → UsnChange → Bool → Option OverlaySegment
    change_in_overlay overlay c refresh_info =
        let id = id_for_frn base c.frn in
        let next = with_watermark (append_record (shadow overlay id) (changed_record c id)) in
        elim refresh_info [
          | true ↦ refresh_overlay_file_info next (length overlay.records)
          | false ↦ some next
        ]

    unfoldable pub record_update : Volume → UsnChange → Bool → Option Volume
    record_update vol c refresh_info = elim (change_in_overlay vol.overlay c refresh_info) [
      | none ↦ none
      | some overlay ↦ some (account_update vol c overlay)
    ]

    unfoldable pub record_overlay_change : Volume → UsnChange → Bool → Option Volume
    record_overlay_change vol c refresh_info =
        if is_rename_old c.reason && not (is_rename_new c.reason)
        then some vol
        else elim (is_delete c.reason) [
          | true ↦ record_deletion vol c
          | false ↦ record_update vol c refresh_info
        ]

    -- One round of the loop over the changes.
    unfoldable pub apply_change : List (ℕ × ℕ) → ℕ → Volume → UsnChange → Option Volume
    apply_change last i vol c =
        if c.frn == 0
        then some vol
        else let (consumed, dynamic) =
            consume_owned_replay_change base vol.owned_dynamic_dir_frns c in
          let noted = record vol { owned_dynamic_dir_frns = dynamic } in
          elim consumed [
            | true ↦ some (advance noted c.usn)
            | false ↦
                elim (record_overlay_change noted c
                  (is_last last i c.frn && needs_info_refresh c.reason)) [
                    | none ↦ none
                    | some next ↦ some (advance next c.usn)
                  ]
          ]

    unfoldable pub apply_loop : List (ℕ × ℕ) → ℕ → Volume → List UsnChange → Option Volume
    apply_loop last i vol [] = some vol
    apply_loop last i vol (c ∷ changes) = elim (apply_change last i vol c) [
      | none ↦ none
      | some next ↦ apply_loop last (i + 1) next changes
    ]

    unfoldable pub apply_usn_changes : Volume → List UsnChange → Option Volume
    apply_usn_changes vol changes = elim (apply_loop (last_change 0 changes) 0 vol changes) [
      | none ↦ none
      | some next ↦ some (record next { index_checkpoint = next.checkpoint; dirty = true })
    ]

    -- The frames of a log, past the checkpoint.
    unfoldable pub replay_frames : Volume → List WalBatch → Option Volume
    replay_frames vol [] = some vol
    replay_frames vol (batch ∷ frames) = elim (int_less vol.checkpoint batch.next_usn) [
      | false ↦ replay_frames vol frames
      | true ↦ elim (apply_usn_changes vol batch.changes) [
        | none ↦ none
        | some next ↦
            replay_frames
              (record next {
                checkpoint = batch.next_usn;
                index_checkpoint = batch.next_usn;
                dirty = true;
              })
              frames
      ]
    ]
