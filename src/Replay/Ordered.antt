-- ===== src/Replay/Ordered.antt =====
-- cmd/seekfs/service_replay.go: a deletion of `recordOverlayChange` ends and keeps the overlay's map right
-- and its records ranked.
use seekfs.Common.{
  ℕ, ◌≡◌, refl, ap, ◌∙◌, Bool-cases, true, false, inl, inr, Option, none, some, length, ◌==◌,
}
use seekfs.Wal.Batch.{UsnChange}
use seekfs.Replay.Volume.{CompactRecord, Base, OverlaySegment, id_for_frn}
use seekfs.Replay.Sizes.{overlay_record}
use seekfs.Replay.Subtree.{tombstone_base_subtree_ends}
use seekfs.Replay.Change.{
  append_record, deletion, proven_file, tombstoned, delete_in_overlay, changed_record,
}
use seekfs.Replay.Ranked.{
  falls, falls_deleted, IsRanked, IsRanked-append, cascade_overlay_delete-IsRanked,
}
use seekfs.Replay.Entries.{
  IsConsistent, append_record-IsConsistent, cascade_overlay_delete-IsConsistent,
}

deletion_frn : (c : UsnChange) (prev : Option CompactRecord) → (deletion c prev).frn ≡ c.frn
unfolding deletion
deletion_frn c none = refl
deletion_frn c (some prev) = refl

deletion_deleted : (c : UsnChange) (prev : Option CompactRecord) → (deletion c prev).deleted ≡ true
unfolding deletion
deletion_deleted c none = refl
deletion_deleted c (some prev) = refl

-- The map is right and the records are ranked.
pub record IsOrdered (rank : ℕ → ℕ) (overlay : OverlaySegment) : Type 0 where
  pub consistent : IsConsistent overlay
  pub ranked : IsRanked rank overlay.records

pub append_record-IsOrdered :
    (rank : ℕ → ℕ) (overlay : OverlaySegment) (rec : CompactRecord)
    → (rec.frn == 0) ≡ false
    → falls rank rec ≡ true
    → IsOrdered rank overlay
    → IsOrdered rank (append_record overlay rec)
unfolding append_record
append_record-IsOrdered rank overlay rec z f h = record {
  consistent = append_record-IsConsistent overlay rec z h.consistent;
  ranked = IsRanked-append rank overlay.records rec h.ranked f;
}

-- A result that there is, of which a property holds.
unfoldable pub Gives : {A : Type 0} → Option A → (A → Type 0) → Type 0
Gives {A = A} o P = (a : A) × (o ≡ some a) × P a

module _ (base : Base) where
  pub changed_record_frn : (c : UsnChange) (id : Option ℕ) → (changed_record base c id).frn ≡ c.frn
  unfolding changed_record
  changed_record_frn c none = refl
  changed_record_frn c (some id) = refl

  tombstoned-IsOrdered :
      (rank : ℕ → ℕ) (overlay : OverlaySegment) (id : Option ℕ)
      → IsOrdered rank overlay
      → Gives (tombstoned base overlay id) (IsOrdered rank)
  unfolding tombstoned IsConsistent Gives
  tombstoned-IsOrdered rank overlay none h = (overlay, refl, h)
  tombstoned-IsOrdered rank overlay (some id) h =
      let (marked, e) = tombstone_base_subtree_ends base overlay.tombstone id in
      (
        record overlay { tombstone = marked },
        rw (tombstoned, e) refl,
        record { consistent = h.consistent; ranked = h.ranked },
      )

  pub delete_in_overlay-IsOrdered :
      (rank : ℕ → ℕ) (overlay : OverlaySegment) (c : UsnChange)
      → (c.frn == 0) ≡ false
      → IsOrdered rank overlay
      → Gives (delete_in_overlay base overlay c) (IsOrdered rank)
  unfolding delete_in_overlay IsConsistent Gives
  delete_in_overlay-IsOrdered rank overlay c z h =
      let prev = overlay_record overlay c.frn in
      let id = id_for_frn base c.frn in
      let rec = deletion c prev in
      let own : (rec.frn == 0) ≡ false = ap (λ f. f == 0) (deletion_frn c prev) ∙ z in
      let down = falls_deleted rank rec (deletion_deleted c prev) in
      let (marked, e, m) =
        tombstoned-IsOrdered rank (append_record overlay rec) id
          (append_record-IsOrdered rank overlay rec own down h) in
      let (after, e', a) = cascade_overlay_delete-IsConsistent base marked c.frn m.consistent in
      let ranks = cascade_overlay_delete-IsRanked base rank marked c.frn after e' m.ranked in
      elim (Bool-cases (proven_file base id prev)) [
        | inl y ↦ (
          record marked { watermark = length marked.records },
          rw (delete_in_overlay, e, y) refl,
          record { consistent = m.consistent; ranked = m.ranked },
        )
        | inr n ↦ (
          record after { watermark = length after.records },
          rw (delete_in_overlay, e, n, e') refl,
          record { consistent = a; ranked = ranks },
        )
      ]
