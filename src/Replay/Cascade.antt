-- ===== src/Replay/Cascade.antt =====
-- cmd/seekfs/service_replay.go: `cascadeOverlayDelete`, and `latestOverlaySlotsByFRN` of search_overlay.go.
-- A map is a list of its entries, in the order in which the loop takes them: Go leaves that order open.
use seekfs.Common.{
  ℕ, zero, suc, ◌+◌, Bool, true, false, ◌||◌, Option, none, some, List, [], ◌∷◌, ◌++◌, map, length,
  get_or, get_elem?, ltb, leb, ◌==◌, if◌then◌else◌,
}
use seekfs.Replay.BaseIds.{member, contains}
use seekfs.Replay.Volume.{
  CompactRecord, no_record, Base, OverlaySegment, lookup, put, compact_record, record_count,
  id_for_frn,
}

-- What one reference says of its own fate: dead, alive, or what its parent's is.
pub data Fate : Type 0 where
  dead : Fate
  alive : Fate
  up : ℕ → Fate

-- The entries of the last record of each reference, from the record `i` on.
unfoldable pub latest_from : ℕ → List CompactRecord → List (ℕ × ℕ)
latest_from i [] = []
latest_from i (rec ∷ records) =
    let latest = latest_from (i + 1) records in
    if rec.frn == 0
    then latest
    else elim (lookup rec.frn latest) [ some slot ↦ latest | none ↦ (rec.frn, i) ∷ latest ]

unfoldable pub latest_overlay_slots_by_frn : List CompactRecord → List (ℕ × ℕ)
latest_overlay_slots_by_frn records = latest_from 0 records

-- `rec.ParentFRN != 0 && rec.ParentFRN != frn`, else the record stands for itself.
abbrev pub parent_fate : ℕ → CompactRecord → Fate
parent_fate frn rec =
    if rec.parent_frn == 0 || (rec.parent_frn == frn) then alive else up rec.parent_frn

module _ (base : Base) (overlay : OverlaySegment) (latest : List (ℕ × ℕ)) where
  abbrev pub overlay_fate : ℕ → CompactRecord → Fate
  overlay_fate frn rec = if rec.deleted then dead else parent_fate frn rec

  abbrev pub base_fate : ℕ → Fate
  base_fate frn = elim (id_for_frn base frn) [
    | none ↦ alive
    | some id ↦
        if contains overlay.tombstone id
        then dead
        else if leb (record_count base) id
        then alive
        else parent_fate frn (compact_record base id)
  ]

  abbrev pub slot_fate : ℕ → Option CompactRecord → Fate
  slot_fate frn none = base_fate frn
  slot_fate frn (some rec) = overlay_fate frn rec

  -- The record at the reference's latest slot.
  abbrev pub latest_record : ℕ → Option CompactRecord
  latest_record frn = elim (lookup frn latest) [
    | none ↦ none
    | some slot ↦ get_elem? overlay.records slot
  ]

  unfoldable pub fate : ℕ → Fate
  fate frn = slot_fate frn (latest_record frn)

-- `resolve`, with `doomed` passed on; `none` is the end of the fuel.
module _ (fate_of : ℕ → Fate) (deleted_frn : ℕ) where
  unfoldable pub resolve : ℕ → ℕ → List ℕ → List (ℕ × Bool) → Option (Bool × List (ℕ × Bool))
  resolve zero frn seen doomed = none
  resolve (suc fuel) frn seen doomed = elim (frn == 0) [
    | true ↦ some (false, doomed)
    | false ↦ elim (frn == deleted_frn) [
      | true ↦ some (true, doomed)
      | false ↦ elim (lookup frn doomed) [
        | some v ↦ some (v, doomed)
        | none ↦ elim (member frn seen) [
          | true ↦ some (false, doomed)
          | false ↦ elim (fate_of frn) [
            | dead ↦ some (true, (frn, true) ∷ doomed)
            | alive ↦ some (false, (frn, false) ∷ doomed)
            | up parent ↦ elim (resolve fuel parent (frn ∷ seen) doomed) [
              | none ↦ none
              | some r ↦ some (r.0, (frn, r.0) ∷ r.1)
            ]
          ]
        ]
      ]
    ]
  ]

pub record Victim : Type 0 where
  pub frn : ℕ
  pub name : List ℕ

-- `sort.Slice` by reference.
abbrev pub insert_victim : Victim → List Victim → List Victim
insert_victim v [] = v ∷ []
insert_victim v (w ∷ victims) =
    if ltb w.frn v.frn then w ∷ insert_victim v victims else v ∷ (w ∷ victims)

abbrev pub sorted_victims : List Victim → List Victim
sorted_victims [] = []
sorted_victims (v ∷ victims) = insert_victim v (sorted_victims victims)

-- The tests before `resolve`: the reference is not a victim.
abbrev pub spared : ℕ → ℕ → CompactRecord → Bool
spared deleted_frn frn rec =
    frn == 0
    || (frn == deleted_frn)
    || rec.deleted
    || (rec.parent_frn == 0)
    || (rec.parent_frn == frn)

module _ (fate_of : ℕ → Fate) (deleted_frn fuel : ℕ) (records : List CompactRecord) where
  -- `for frn, slot := range latest`
  unfoldable pub victims_of : List (ℕ × ℕ) → List (ℕ × Bool) → Option (List Victim)
  victims_of [] doomed = some []
  victims_of (e ∷ latest) doomed =
      let rec = get_or records e.1 no_record in
      elim (spared deleted_frn e.0 rec) [
        | true ↦ victims_of latest doomed
        | false ↦ elim (resolve fate_of deleted_frn fuel rec.parent_frn (e.0 ∷ []) doomed) [
          | none ↦ none
          | some r ↦ elim (victims_of latest r.1) [
            | none ↦ none
            | some victims ↦
                some (if r.0 then record { frn = e.0; name = rec.name } ∷ victims else victims)
          ]
        ]
      ]

-- The record that is appended for one victim; a reference without a slot reads slot 0.
unfoldable pub deleted_record : List (ℕ × ℕ) → List CompactRecord → Victim → CompactRecord
deleted_record latest records v =
    let prev : CompactRecord = elim (lookup v.frn latest) [
      | none ↦ get_or records 0 no_record
      | some slot ↦ get_or records slot no_record
    ] in
    record no_record { frn = v.frn; parent_frn = prev.parent_frn; name = v.name; deleted = true }

unfoldable pub delete_victim : List (ℕ × ℕ) → OverlaySegment → Victim → OverlaySegment
delete_victim latest overlay v = record overlay {
  by_frn = put overlay.by_frn v.frn (some (length overlay.records));
  records = overlay.records ++ (deleted_record latest overlay.records v ∷ []);
}

unfoldable pub delete_victims : List (ℕ × ℕ) → OverlaySegment → List Victim → OverlaySegment
delete_victims latest overlay [] = overlay
delete_victims latest overlay (v ∷ victims) =
    delete_victims latest (delete_victim latest overlay v) victims

-- Each reference that has a parent to go on to is one of these.
unfoldable pub references : Base → List (ℕ × ℕ) → List ℕ
references base latest = map (λ e. e.0) latest ++ (map (λ e. e.0) base.frn_to_id ++ base.frns)

unfoldable pub cascade_overlay_delete : Base → OverlaySegment → ℕ → Option OverlaySegment
cascade_overlay_delete base overlay deleted_frn =
    let latest = latest_overlay_slots_by_frn overlay.records in
    let fuel = length (references base latest) + 1 in
    elim (victims_of (fate base overlay latest) deleted_frn fuel overlay.records latest []) [
      | none ↦ none
      | some victims ↦ some (delete_victims latest overlay (sorted_victims victims))
    ]
