-- ===== src/Replay/Lost.antt =====
-- cmd/seekfs/service_replay.go: what `cascadeOverlayDelete` deletes, said of the records and their parents.
use seekfs.Common.{
  ℕ, ◌+◌, ◌≡◌, ◌⊎◌, sym, ap, subst, ◌∙◌, false, inl, inr, none, some, List, ◌++◌, get_or, ◌==◌,
  arith,
}
use seekfs.Replay.Volume.{CompactRecord, no_record, Base, OverlaySegment}
use seekfs.Replay.Cascade.{latest_overlay_slots_by_frn, fate, cascade_overlay_delete, spared}
use seekfs.Replay.Doom.{dies_within, Doomed}
use seekfs.Replay.Deleted.{DeletedIn}
use seekfs.Replay.Victims.{Dies}
use seekfs.Replay.Descendants.{Dooms, stored_record, cascade_overlay_delete_lem}
use seekfs.Replay.Dead.{
  last_record, latest_from-LastSlot, IsLost, Dead-nonzero, Dead-Doomed, Doomed-Dead,
}

module _ (base : Base) (overlay : OverlaySegment) (deleted_frn : ℕ) where
  Dies-IsLost :
      (f slot : ℕ) (rec : CompactRecord)
      → get_or overlay.records slot no_record ≡ rec
      → (Dooms base overlay deleted_frn f slot → IsLost base overlay deleted_frn f rec)
        × ((f == 0) ≡ false
            → IsLost base overlay deleted_frn f rec
            → Dooms base overlay deleted_frn f slot)
  unfolding Dooms Dies Doomed
  Dies-IsLost f slot rec s = (
    λ (n, (m, d)).
        let spare : spared deleted_frn f rec ≡ false = ap (spared deleted_frn f) (sym s) ∙ n in
        let dead_parent = Doomed-Dead base overlay deleted_frn m rec.parent_frn (
          ap
            (λ r.
              dies_within (fate base overlay (latest_overlay_slots_by_frn overlay.records))
                deleted_frn m r.parent_frn)
            (sym s)
          ∙ d) in
        record {
          other = ground (arith, spare);
          live = ground (arith, spare);
          apart = ground (arith, spare);
          parent = dead_parent;
        },
    λ z lost.
        let some_parent = Dead-nonzero base overlay deleted_frn rec.parent_frn lost.parent in
        let spare : spared deleted_frn f rec ≡ false =
          ground (arith, z, lost.other, lost.live, lost.apart, some_parent) in
        (
          ap (spared deleted_frn f) s ∙ spare,
          subst
              (λ r.
                Doomed (fate base overlay (latest_overlay_slots_by_frn overlay.records)) deleted_frn
                  r.parent_frn)
              (sym s) (Dead-Doomed base overlay deleted_frn rec.parent_frn lost.parent),
        ),
  )

-- The deletion of what stands below a deleted directory ends, keeps the records and appends to them. A
-- reference other than 0 with a record in the overlay is then either deleted in it, and its last record
-- was that of a live entry of another reference below a dead parent; or it keeps its entry, and it was
-- not.
pub cascade_overlay_delete-IsLost :
    (base : Base) (overlay : OverlaySegment) (deleted_frn f : ℕ) (rec : CompactRecord)
    → (f == 0) ≡ false
    → last_record overlay.records f ≡ some rec
    → (after : OverlaySegment) × (cascade_overlay_delete base overlay deleted_frn ≡ some after)
      × ((more : List CompactRecord) × (after.records ≡ overlay.records ++ more))
      × ((IsLost base overlay deleted_frn f rec × DeletedIn after f)
          ⊎ (¬ IsLost base overlay deleted_frn f rec × (after.by_frn f ≡ overlay.by_frn f)))
unfolding latest_overlay_slots_by_frn Dooms Dies Doomed
cascade_overlay_delete-IsLost base overlay deleted_frn f rec z last =
    elim (latest_from-LastSlot 0 overlay.records f z) [
      | inl (l, e) ↦ let no : none ≡ some rec = sym e ∙ last in cc
      | inr (k, found, l, g, e) ↦
          let same : some found ≡ some rec = sym e ∙ last in
          let it : found ≡ rec = cc in
          let (after, done, more, split) =
            cascade_overlay_delete_lem base overlay deleted_frn f (0 + k) l in
          let slot_record : get_or overlay.records (0 + k) no_record ≡ rec =
            ap (λ j. get_or overlay.records j no_record) (omega arith)
            ∙ stored_record overlay.records k found g
            ∙ it in
          (
            after,
            done,
            more,
            elim split [
              | inl (dies, d) ↦
                  inl ((Dies-IsLost base overlay deleted_frn f (0 + k) rec slot_record).0 dies, d)
              | inr (lives, kept) ↦ inr (
                λ h. lives ((Dies-IsLost base overlay deleted_frn f (0 + k) rec slot_record).1 z h),
                kept,
              )
            ],
          )
    ]
