-- ===== src/Replay/Ranked.antt =====
-- cmd/seekfs/search_overlay.go: `overlayRecordPath` ends where a rank of the references falls from each live
-- record of the overlay to its parent, and does not where two directories are each other's parents.
use seekfs.Common.{
  ℕ, zero, suc, ◌<◌, ◌≡◌, refl, sym, ap, subst, ◌∙◌, Bool, Bool-cases, true, false, ◌||◌, inl, inr,
  Option, none, some, Option-cases, List, [], ◌∷◌, ◌++◌, get_elem?, get_or, set, ltb, ◌==◌, All,
  arith,
}
use seekfs.Replay.Volume.{CompactRecord, no_record, Base, OverlaySegment}
use seekfs.Replay.Path.{Host, overlay_record_path, child_path, path_name}
use seekfs.Replay.Cascade.{
  Victim, sorted_victims, latest_overlay_slots_by_frn, deleted_record, delete_victim,
  delete_victims, cascade_overlay_delete,
}
use seekfs.Replay.Latest.{lookup-latest_from}
use seekfs.Replay.Descendants.{cascade_victims}
use seekfs.Replay.Entries.{IsConsistent}

-- The record is deleted or has no other parent, or its parent's rank is less than its own.
unfoldable pub falls : (ℕ → ℕ) → CompactRecord → Bool
falls rank rec =
    rec.deleted
    || (rec.parent_frn == 0)
    || (rec.parent_frn == rec.frn)
    || ltb (rank rec.parent_frn) (rank rec.frn)

-- Each record falls.
unfoldable pub IsRanked : (ℕ → ℕ) → List CompactRecord → Type 0
IsRanked rank records = All (λ rec. falls rank rec ≡ true) records

pub IsRanked-append :
    (rank : ℕ → ℕ) (records : List CompactRecord) (rec : CompactRecord)
    → IsRanked rank records
    → falls rank rec ≡ true
    → IsRanked rank (records ++ (rec ∷ []))
unfolding IsRanked
IsRanked-append rank [] rec h f = (f, tt)
IsRanked-append rank (r ∷ records) rec h f = (h.0, IsRanked-append rank records rec h.1 f)

-- What is set in a record, but not its references or its deletion, leaves the ranks.
pub IsRanked-set :
    (rank : ℕ → ℕ) (records : List CompactRecord) (k : ℕ) (rec : CompactRecord)
    → falls rank rec ≡ falls rank (get_or records k no_record)
    → IsRanked rank records
    → IsRanked rank (set records k rec)
unfolding IsRanked
IsRanked-set rank [] k rec e h = h
IsRanked-set rank (r ∷ records) zero rec e h = (e ∙ h.0, h.1)
IsRanked-set rank (r ∷ records) (suc k) rec e h = (h.0, IsRanked-set rank records k rec e h.1)

IsRanked-at :
    (rank : ℕ → ℕ) (records : List CompactRecord) (k : ℕ) (rec : CompactRecord)
    → IsRanked rank records
    → get_elem? records k ≡ some rec
    → falls rank rec ≡ true
unfolding IsRanked
IsRanked-at rank [] k rec h g = cc
IsRanked-at rank (r ∷ records) zero rec h g =
    let same : r ≡ rec = cc in ap (falls rank) (sym same) ∙ h.0
IsRanked-at rank (r ∷ records) (suc k) rec h g = IsRanked-at rank records k rec h.1 g

pub falls_deleted :
    (rank : ℕ → ℕ) (rec : CompactRecord) → rec.deleted ≡ true → falls rank rec ≡ true
unfolding falls
falls_deleted rank rec d = rw d refl

delete_victims-IsRanked :
    (rank : ℕ → ℕ) (latest : List (ℕ × ℕ)) (overlay : OverlaySegment) (victims : List Victim)
    → IsRanked rank overlay.records
    → IsRanked rank (delete_victims latest overlay victims).records
unfolding delete_victims delete_victim deleted_record
delete_victims-IsRanked rank latest overlay [] h = h
delete_victims-IsRanked rank latest overlay (v ∷ victims) h =
    let rec = deleted_record latest overlay.records v in
    delete_victims-IsRanked rank latest (delete_victim latest overlay v) victims
      (IsRanked-append rank overlay.records rec h (falls_deleted rank rec refl))

-- The cascade keeps the ranks: what it appends is deleted.
pub cascade_overlay_delete-IsRanked :
    (base : Base) (rank : ℕ → ℕ) (overlay : OverlaySegment) (deleted_frn : ℕ)
    (after : OverlaySegment)
    → cascade_overlay_delete base overlay deleted_frn ≡ some after
    → IsRanked rank overlay.records
    → IsRanked rank after.records
cascade_overlay_delete-IsRanked base rank overlay deleted_frn after e h =
    let (victims, found, z) = cascade_victims base overlay deleted_frn in
    let latest = latest_overlay_slots_by_frn overlay.records in
    let next = delete_victims latest overlay (sorted_victims victims) in
    let same : some next ≡ some after = sym found ∙ e in
    let it : next ≡ after = cc in
    subst (λ o. IsRanked rank o.records) it
      (delete_victims-IsRanked rank latest overlay (sorted_victims victims) h)

child_path_ends :
    (host : Host) (base : Base) (name : List ℕ) (o : Option (List ℕ))
    → (path : List ℕ) × (o ≡ some path)
    → (path : List ℕ) × (child_path host base name o ≡ some path)
child_path_ends host base name none (path, e) = cc
child_path_ends host base name (some parent_path) h = (_, refl)

module _ (host : Host) (base : Base) (rank : ℕ → ℕ) (overlay : OverlaySegment) where
  -- A record of a reference stands where the overlay's map leads.
  parent_record :
      (f slot : ℕ)
      → IsConsistent overlay
      → overlay.by_frn f ≡ some slot
      → (rec : CompactRecord) × (get_elem? overlay.records slot ≡ some rec) × (rec.frn ≡ f)
  unfolding IsConsistent latest_overlay_slots_by_frn
  parent_record f slot c e =
      let (k, at, (rec, g, own)) = lookup-latest_from 0 overlay.records f slot (sym (c f) ∙ e) in
      let same : slot ≡ k = omega (arith, at) in (rec, ap (get_elem? overlay.records) same ∙ g, own)

  -- The path of a record whose rank is less than the fuel is found.
  pub overlay_record_path_ends :
      (fuel slot : ℕ) (rec : CompactRecord)
      → IsConsistent overlay
      → IsRanked rank overlay.records
      → get_elem? overlay.records slot ≡ some rec
      → rank rec.frn < fuel
      → (path : List ℕ) × (overlay_record_path host base fuel overlay.records overlay.by_frn [] slot
          ≡ some path)
  unfolding overlay_record_path falls
  overlay_record_path_ends zero slot rec c h g b = let no : zero ≡ suc zero = omega (arith, b) in cc
  overlay_record_path_ends (suc fuel) slot rec c h g b = elim (Bool-cases rec.deleted) [
    | inl d ↦ ([], rw (overlay_record_path, g, d) refl)
    | inr d ↦ elim (Bool-cases (rec.parent_frn == 0 || (rec.parent_frn == rec.frn))) [
      | inl t ↦ rw (overlay_record_path, g, d, t) (_, refl)
      | inr t ↦ elim (Option-cases (overlay.by_frn rec.parent_frn)) [
        | inl n ↦ rw (overlay_record_path, g, d, t, n) (_, refl)
        | inr (parent_slot, e) ↦
            let (parent, at, own) = parent_record rec.parent_frn parent_slot c e in
            let down = IsRanked-at rank overlay.records slot rec h g in
            let less : rank rec.parent_frn < rank rec.frn = ground (arith, down, d, t) in
            let rank_of : rank parent.frn ≡ rank rec.parent_frn = ap rank own in
            let bound : rank parent.frn < fuel = omega (arith, less, rank_of, b) in
            let found = overlay_record_path_ends fuel parent_slot parent c h at bound in
            let (path, p) = child_path_ends host base (path_name host base rec.name) _ found in
            (path, rw (overlay_record_path, g, d, t, e) p)
      ]
    ]
  ]

-- Two live records, each the overlay's record of the other's parent: no fuel is enough for their paths.
overlay_record_path_loops :
    (host : Host) (base : Base) (records : List CompactRecord) (latest : ℕ → Option ℕ)
    (a b : CompactRecord) (i j : ℕ)
    → get_elem? records i ≡ some a
    → get_elem? records j ≡ some b
    → (a.deleted || (a.parent_frn == 0) || (a.parent_frn == a.frn)) ≡ false
    → (b.deleted || (b.parent_frn == 0) || (b.parent_frn == b.frn)) ≡ false
    → latest a.parent_frn ≡ some j
    → latest b.parent_frn ≡ some i
    → (fuel : ℕ)
    → (overlay_record_path host base fuel records latest [] i ≡ none)
      × (overlay_record_path host base fuel records latest [] j ≡ none)
unfolding overlay_record_path
overlay_record_path_loops host base records latest a b i j ga gb la lb pa pb zero = (refl, refl)
overlay_record_path_loops host base records latest a b i j ga gb la lb pa pb (suc fuel) =
    let (up, down) =
      overlay_record_path_loops host base records latest a b i j ga gb la lb pa pb fuel in
    let da : a.deleted ≡ false = ground (arith, la) in
    let db : b.deleted ≡ false = ground (arith, lb) in
    let ta : (a.parent_frn == 0 || (a.parent_frn == a.frn)) ≡ false = ground (arith, la) in
    let tb : (b.parent_frn == 0 || (b.parent_frn == b.frn)) ≡ false = ground (arith, lb) in
    (
      rw (overlay_record_path, ga, da, ta, pa, down) refl,
      rw (overlay_record_path, gb, db, tb, pb, up) refl,
    )
