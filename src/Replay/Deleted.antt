-- ===== src/Replay/Deleted.antt =====
-- cmd/seekfs/service_replay.go: the records that `cascadeOverlayDelete` appends for its victims.
use seekfs.Common.{
  ℕ, zero, suc, ◌≡◌, refl, sym, ap, ◌∙◌, Bool-cases, true, false, ◌||◌, inl, inr, some, List, [],
  ◌∷◌, ◌++◌, map, length, get_elem?, ◌==◌, ==_iff, arith,
}
use mathlib.Core.List.{append_assoc, append-nil}
use seekfs.Replay.BaseIds.{member}
use seekfs.Replay.Volume.{CompactRecord, OverlaySegment}
use seekfs.Replay.Cascade.{
  Victim, insert_victim, sorted_victims, deleted_record, delete_victim, delete_victims,
}
use seekfs.Replay.Latest.{}

abbrev pub frns_of : List Victim → List ℕ
frns_of victims = map (λ v. v.frn) victims

member-insert_victim :
    (v : Victim) (victims : List Victim) (f : ℕ)
    → member f (frns_of (insert_victim v victims)) ≡ (f == v.frn || member f (frns_of victims))
member-insert_victim v [] f = refl
member-insert_victim v (w ∷ victims) f = ground (arith, member-insert_victim v victims f)

pub member-sorted_victims :
    (victims : List Victim) (f : ℕ)
    → member f (frns_of (sorted_victims victims)) ≡ member f (frns_of victims)
member-sorted_victims [] f = refl
member-sorted_victims (v ∷ victims) f =
    ground
      (arith, member-insert_victim v (sorted_victims victims) f, member-sorted_victims victims f)

-- The overlay's entry of the reference is a deleted record.
unfoldable pub DeletedIn : OverlaySegment → ℕ → Type 0
DeletedIn overlay f =
    (slot : ℕ) × (rec : CompactRecord) × (overlay.by_frn f ≡ some slot)
    × (get_elem? overlay.records slot ≡ some rec)
    × (rec.frn ≡ f)
    × (rec.deleted ≡ true)

get_elem?-append :
    (xs ys : List CompactRecord) (i : ℕ) (rec : CompactRecord)
    → get_elem? xs i ≡ some rec
    → get_elem? (xs ++ ys) i ≡ some rec
get_elem?-append [] ys i rec h = cc
get_elem?-append (x ∷ xs) ys zero rec h = h
get_elem?-append (x ∷ xs) ys (suc i) rec h = get_elem?-append xs ys i rec h

pub get_elem?-last :
    (xs : List CompactRecord) (rec : CompactRecord)
    → get_elem? (xs ++ (rec ∷ [])) (length xs) ≡ some rec
get_elem?-last [] rec = refl
get_elem?-last (x ∷ xs) rec = get_elem?-last xs rec

module _ (latest : List (ℕ × ℕ)) where
  -- The records stay, and others are appended.
  pub delete_victims-records :
      (overlay : OverlaySegment) (victims : List Victim)
      → (more : List CompactRecord) × ((delete_victims latest overlay victims).records
          ≡ overlay.records ++ more)
  unfolding delete_victims delete_victim
  delete_victims-records overlay [] = ([], sym (append-nil overlay.records))
  delete_victims-records overlay (v ∷ victims) =
      let first = delete_victim latest overlay v in
      let (more, e) = delete_victims-records first victims in
      let r = deleted_record latest overlay.records v in
      (r ∷ more, e ∙ append_assoc overlay.records (r ∷ []) more)

  -- The victims are deleted, and no other reference's entry changes.
  pub delete_victims-DeletedIn :
      (overlay : OverlaySegment) (victims : List Victim) (f : ℕ)
      → (member f (frns_of victims) ≡ true → DeletedIn (delete_victims latest overlay victims) f)
        × (member f (frns_of victims) ≡ false
            → (delete_victims latest overlay victims).by_frn f ≡ overlay.by_frn f)
  unfolding delete_victims delete_victim deleted_record DeletedIn
  delete_victims-DeletedIn overlay [] f = (λ h. cc, λ h. refl)
  delete_victims-DeletedIn overlay (v ∷ victims) f =
      let first = delete_victim latest overlay v in
      let (inside, outside) = delete_victims-DeletedIn first victims f in
      let (more, e) = delete_victims-records first victims in
      let r = deleted_record latest overlay.records v in
      let slot = length overlay.records in
      (
        λ h. elim (Bool-cases (member f (frns_of victims))) [
          | inl y ↦ inside y
          | inr n ↦
              let here : (f == v.frn) ≡ true = ground (arith, h, n) in
              let entry : first.by_frn f ≡ some slot = rw here refl in
              let last : get_elem? (first.records ++ more) slot ≡ some r =
                get_elem?-append first.records more slot r (get_elem?-last overlay.records r) in
              (
                slot,
                r,
                outside n ∙ entry,
                ap (λ z. get_elem? z slot) e ∙ last,
                sym ((==_iff f v.frn).0 here),
                refl,
              )
        ],
        λ h.
            let other : (f == v.frn) ≡ false = ground (arith, h) in
            let left : first.by_frn f ≡ overlay.by_frn f = rw other refl in
            outside (ground (arith, h)) ∙ left,
      )
