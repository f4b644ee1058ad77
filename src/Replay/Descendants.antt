-- ===== src/Replay/Descendants.antt =====
-- cmd/seekfs/service_replay.go: what `cascadeOverlayDelete` does to each reference.
use seekfs.Common.{
  Option-cases, ℕ, zero, suc, ◌+◌, ◌≡◌, ◌⊎◌, refl, sym, ap, ◌∙◌, Bool-cases, true, false, ◌||◌, inl,
  inr, some, List, [], ◌∷◌, ◌++◌, length, get_or, get_elem?, ◌==◌, All-map_pred, arith,
}
use seekfs.Replay.BaseIds.{member}
use seekfs.Replay.Volume.{CompactRecord, no_record, Base, OverlaySegment, lookup}
use seekfs.Replay.Cascade.{
  Fate, up, slot_fate, Victim, sorted_victims, spared, victims_of, delete_victims, fate,
  latest_overlay_slots_by_frn, references, cascade_overlay_delete,
}
use seekfs.Replay.Doom.{walk, Remembers}
use seekfs.Replay.Latest.{
  latest_from-Keyed, Keyed-lookup, lookup-latest_from, fate-record, references-Among,
}
use seekfs.Replay.Deleted.{
  frns_of, member-sorted_victims, DeletedIn, delete_victims-records, delete_victims-DeletedIn,
}
use seekfs.Replay.Victims.{Dies, Right, Linked, victims_of-Right}

-- `Dies`, of the overlay's own references.
unfoldable pub Dooms : Base → OverlaySegment → ℕ → ℕ → ℕ → Type 0
Dooms base overlay deleted_frn f slot =
    Dies (fate base overlay (latest_overlay_slots_by_frn overlay.records)) deleted_frn
      overlay.records f slot

pub stored_record :
    (xs : List CompactRecord) (i : ℕ) (rec : CompactRecord)
    → get_elem? xs i ≡ some rec
    → get_or xs i no_record ≡ rec
stored_record [] i rec h = cc
stored_record (x ∷ xs) zero rec h = cc
stored_record (x ∷ xs) (suc i) rec h = stored_record xs i rec h

module _ (base : Base) (overlay : OverlaySegment) (deleted_frn : ℕ) where
  slots : List (ℕ × ℕ)
  slots = latest_overlay_slots_by_frn overlay.records

  goes_up :
      (f : ℕ) (rec : CompactRecord)
      → spared deleted_frn f rec ≡ false
      → fate base overlay slots f ≡ slot_fate base overlay slots f (some rec)
      → walk (fate base overlay slots) deleted_frn f ≡ up rec.parent_frn
  unfolding walk
  goes_up f rec n h =
      let z : (f == 0) ≡ false = ground (arith, n) in
      let d : (f == deleted_frn) ≡ false = ground (arith, n) in
      let live : rec.deleted ≡ false = ground (arith, n) in
      let parent : (rec.parent_frn == 0 || (rec.parent_frn == f)) ≡ false = ground (arith, n) in
      rw (z, d) (h ∙ rw (live, parent) refl)

  entry_up :
      (f slot : ℕ)
      → lookup f slots ≡ some slot
      → spared deleted_frn f (get_or overlay.records slot no_record) ≡ false
      → walk (fate base overlay slots) deleted_frn f
        ≡ up (get_or overlay.records slot no_record).parent_frn
  unfolding slots latest_overlay_slots_by_frn
  entry_up f slot l n =
      let (k, at, (rec, g, own)) = lookup-latest_from 0 overlay.records f slot l in
      let same : slot ≡ k = omega (arith, at) in
      let here : get_elem? overlay.records slot ≡ some rec =
        ap (get_elem? overlay.records) same ∙ g in
      let it : get_or overlay.records slot no_record ≡ rec =
        stored_record overlay.records slot rec here in
      goes_up f rec (ap (spared deleted_frn f) (sym it) ∙ n)
        (fate-record base overlay slots f slot rec l here)
      ∙ ap (λ z. up z.parent_frn) (sym it)

  all_up : Linked (fate base overlay slots) deleted_frn overlay.records slots
  unfolding Linked slots latest_overlay_slots_by_frn
  all_up =
      All-map_pred (λ e. lookup e.0 slots ≡ some e.1)
        (λ e.
          spared deleted_frn e.0 (get_or overlay.records e.1 no_record) ≡ false
          → walk (fate base overlay slots) deleted_frn e.0
            ≡ up (get_or overlay.records e.1 no_record).parent_frn)
        (λ e h n. entry_up e.0 e.1 h n) slots
        (Keyed-lookup slots (latest_from-Keyed 0 overlay.records))

  found :
      (victims : List Victim) × (victims_of
          (fate base overlay slots)
          deleted_frn
          (length (references base slots) + 1)
          overlay.records
          slots
          []
        ≡ some victims)
      × Right (fate base overlay slots) deleted_frn overlay.records slots victims
  unfolding slots latest_overlay_slots_by_frn Remembers
  found =
      victims_of-Right (fate base overlay slots) deleted_frn overlay.records (references base slots)
        (references-Among base overlay slots deleted_frn) (length (references base slots) + 1)
        (omega arith) slots [] (latest_from-Keyed 0 overlay.records) all_up (λ f v h. cc)

-- A listed reference that is no victim does not die.
kept :
    {fate_of : ℕ → Fate} {deleted_frn : ℕ} {records : List CompactRecord} {latest : List (ℕ × ℕ)}
    (victims : List Victim)
    → Right fate_of deleted_frn records latest victims
    → (f slot : ℕ) → lookup f latest ≡ some slot
    → member f (frns_of victims) ≡ false
    → ¬ Dies fate_of deleted_frn records f slot
kept victims right f slot l m d = let e : true ≡ false = sym (right.dying f slot l d) ∙ m in cc

-- The victims that the cascade deletes; the reference 0 is none of them.
pub cascade_victims :
    (base : Base) (overlay : OverlaySegment) (deleted_frn : ℕ)
    → (victims : List Victim) × (cascade_overlay_delete base overlay deleted_frn
        ≡ some (
            delete_victims
              (latest_overlay_slots_by_frn overlay.records)
              overlay
              (sorted_victims victims)))
      × ((f : ℕ) → member f (frns_of (sorted_victims victims)) ≡ true → (f == 0) ≡ false)
unfolding cascade_overlay_delete slots Dies
cascade_victims base overlay deleted_frn =
    let latest = latest_overlay_slots_by_frn overlay.records in
    let (victims, e, right) = found base overlay deleted_frn in
    (
      victims,
      rw (cascade_overlay_delete, e) refl,
      λ f m.
          let among = sym (member-sorted_victims victims f) ∙ m in
          elim (Option-cases (lookup f latest)) [
            | inl n ↦ let no : true ≡ false = sym among ∙ right.absent f n in cc
            | inr (slot, l) ↦ let dies = right.victim f slot l among in ground (arith, dies.0)
          ],
    )

-- The deletion of what stands below a deleted directory ends, leaves the records and appends to them.
-- Each reference with an entry in the overlay is then either deleted in it, and its latest record was not
-- deleted, was not the deleted directory's and had another parent, from which the walk up comes to a dead
-- reference; or it keeps its entry, and this is not so.
pub cascade_overlay_delete_lem :
    (base : Base) (overlay : OverlaySegment) (deleted_frn f slot : ℕ)
    → lookup f (latest_overlay_slots_by_frn overlay.records) ≡ some slot
    → (after : OverlaySegment) × (cascade_overlay_delete base overlay deleted_frn ≡ some after)
      × ((more : List CompactRecord) × (after.records ≡ overlay.records ++ more))
      × ((Dooms base overlay deleted_frn f slot × DeletedIn after f)
          ⊎ (¬ Dooms base overlay deleted_frn f slot × (after.by_frn f ≡ overlay.by_frn f)))
unfolding cascade_overlay_delete Dooms slots
cascade_overlay_delete_lem base overlay deleted_frn f slot l =
    let latest = latest_overlay_slots_by_frn overlay.records in
    let (victims, e, right) = found base overlay deleted_frn in
    let sorted = sorted_victims victims in
    let (inside, outside) = delete_victims-DeletedIn latest overlay sorted f in
    let order = member-sorted_victims victims f in
    (
      delete_victims latest overlay sorted,
      rw (cascade_overlay_delete, e) refl,
      delete_victims-records latest overlay sorted,
      elim (Bool-cases (member f (frns_of victims))) [
        | inl y ↦ inl (right.victim f slot l y, inside (order ∙ y))
        | inr m ↦ inr (kept victims right f slot l m, outside (order ∙ m))
      ],
    )
