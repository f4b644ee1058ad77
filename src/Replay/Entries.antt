-- ===== src/Replay/Entries.antt =====
-- cmd/seekfs/service_replay.go: the overlay's map of references has the last record of each.
use seekfs.Common.{
  ℕ, zero, suc, ◌+◌, ◌≡◌, refl, sym, ap, ◌∙◌, Bool-cases, true, false, inl, inr, Option, none, some,
  Option-cases, List, [], ◌∷◌, ◌++◌, map, length, get_or, set, ◌==◌, ==_iff, if◌then◌else◌, arith,
}
use seekfs.Replay.BaseIds.{member}
use seekfs.Replay.Volume.{CompactRecord, no_record, Base, OverlaySegment, lookup}
use seekfs.Replay.Cascade.{
  Victim, sorted_victims, latest_from, latest_overlay_slots_by_frn, deleted_record, delete_victim,
  delete_victims, cascade_overlay_delete,
}
use seekfs.Replay.Descendants.{cascade_victims}
use seekfs.Replay.Change.{append_record}

-- The last slot of the reference; the reference 0 has none.
unfoldable pub IsConsistent : OverlaySegment → Type 0
IsConsistent overlay =
    (f : ℕ) → overlay.by_frn f ≡ lookup f (latest_overlay_slots_by_frn overlay.records)

abbrev pub or_else : Option ℕ → Option ℕ → Option ℕ
or_else none o = o
or_else (some x) o = some x

abbrev pub own_slot : ℕ → ℕ → ℕ → Option ℕ
own_slot frn i f = if frn == 0 then none else if f == frn then some i else none

pub lookup-latest_cons :
    (i : ℕ) (rec : CompactRecord) (records : List CompactRecord) (f : ℕ)
    → lookup f (latest_from i (rec ∷ records))
      ≡ or_else (lookup f (latest_from (i + 1) records)) (own_slot rec.frn i f)
unfolding latest_from
lookup-latest_cons i rec records f =
    let later = latest_from (i + 1) records in
    elim (Bool-cases (rec.frn == 0)) [
      | inl z ↦ elim (Option-cases (lookup f later)) [
        | inl n ↦ rw (latest_from, z, n) refl
        | inr (s, e) ↦ rw (latest_from, z, e) refl
      ]
      | inr z ↦ elim (Option-cases (lookup rec.frn later)) [
        | inl n ↦ elim (Bool-cases (f == rec.frn)) [
          | inl y ↦
              let absent : lookup f later ≡ none =
                ap (λ k. lookup k later) ((==_iff f rec.frn).0 y) ∙ n in
              rw (latest_from, z, n, y, absent) refl
          | inr o ↦ elim (Option-cases (lookup f later)) [
            | inl a ↦ rw (latest_from, z, n, o, a) refl
            | inr (s, e) ↦ rw (latest_from, z, n, o, e) refl
          ]
        ]
        | inr (s, e) ↦ elim (Bool-cases (f == rec.frn)) [
          | inl y ↦
              let there : lookup f later ≡ some s =
                ap (λ k. lookup k later) ((==_iff f rec.frn).0 y) ∙ e in
              rw (latest_from, z, e, there) refl
          | inr o ↦ elim (Option-cases (lookup f later)) [
            | inl a ↦ rw (latest_from, z, e, o, a) refl
            | inr (t, g) ↦ rw (latest_from, z, e, g) refl
          ]
        ]
      ]
    ]

own_first :
    (i : ℕ) (rec : CompactRecord) (f : ℕ)
    → (rec.frn == 0) ≡ false
    → or_else (lookup f (latest_from (i + 1) [])) (own_slot rec.frn i f)
      ≡ (if f == rec.frn then some (i + 0) else lookup f (latest_from i []))
unfolding latest_from
own_first i rec f z = let start : i + 0 ≡ i = omega arith in rw (z, start) refl

lookup-latest_append :
    (i : ℕ) (records : List CompactRecord) (rec : CompactRecord) (f : ℕ)
    → (rec.frn == 0) ≡ false
    → lookup f (latest_from i (records ++ (rec ∷ [])))
      ≡ (if f == rec.frn then some (i + length records) else lookup f (latest_from i records))
lookup-latest_append i [] rec f z = lookup-latest_cons i rec [] f ∙ own_first i rec f z
lookup-latest_append i (r ∷ records) rec f z =
    let count : i + 1 + length records ≡ i + suc (length records) = omega arith in
    lookup-latest_cons i r (records ++ (rec ∷ [])) f
    ∙ ap (λ o. or_else o (own_slot r.frn i f)) (lookup-latest_append (i + 1) records rec f z)
    ∙ elim (Bool-cases (f == rec.frn)) [
      | inl y ↦ rw (y, count) refl
      | inr n ↦ rw n (sym (lookup-latest_cons i r records f))
    ]

-- Appending a record of a reference that is not 0 keeps the map right.
pub append_record-IsConsistent :
    (overlay : OverlaySegment) (rec : CompactRecord)
    → (rec.frn == 0) ≡ false
    → IsConsistent overlay
    → IsConsistent (append_record overlay rec)
unfolding append_record IsConsistent latest_overlay_slots_by_frn
append_record-IsConsistent overlay rec z c f = sym (
    lookup-latest_append 0 overlay.records rec f z
    ∙ let count : 0 + length overlay.records ≡ length overlay.records = omega arith in
      rw (count, c f) refl)

delete_victims-IsConsistent :
    (latest : List (ℕ × ℕ)) (overlay : OverlaySegment) (victims : List Victim)
    → ((f : ℕ) → member f (map (λ v. v.frn) victims) ≡ true → (f == 0) ≡ false)
    → IsConsistent overlay
    → IsConsistent (delete_victims latest overlay victims)
unfolding delete_victims delete_victim append_record deleted_record
delete_victims-IsConsistent latest overlay [] z c = c
delete_victims-IsConsistent latest overlay (v ∷ victims) z c =
    let first =
      append_record-IsConsistent overlay (deleted_record latest overlay.records v)
        (z v.frn (ground arith)) c in
    delete_victims-IsConsistent latest (delete_victim latest overlay v) victims
      (λ f m. z f (ground (arith, m))) first

own_slot_same : (i f g h : ℕ) → g ≡ h → own_slot g i f ≡ own_slot h i f
own_slot_same i f g h e = ap (λ z. own_slot z i f) e

-- A record that takes another's place, of the same reference, changes no entry.
pub lookup-latest_set :
    (i : ℕ) (records : List CompactRecord) (k : ℕ) (rec : CompactRecord) (f : ℕ)
    → rec.frn ≡ (get_or records k no_record).frn
    → lookup f (latest_from i (set records k rec)) ≡ lookup f (latest_from i records)
lookup-latest_set i [] k rec f e = refl
lookup-latest_set i (r ∷ records) zero rec f e =
    lookup-latest_cons i rec records f
    ∙ ap (or_else (lookup f (latest_from (i + 1) records))) (own_slot_same i f rec.frn r.frn e)
    ∙ sym (lookup-latest_cons i r records f)
lookup-latest_set i (r ∷ records) (suc k) rec f e =
    lookup-latest_cons i r (set records k rec) f
    ∙ ap (λ o. or_else o (own_slot r.frn i f)) (lookup-latest_set (i + 1) records k rec f e)
    ∙ sym (lookup-latest_cons i r records f)

-- The cascade ends and keeps the map right.
pub cascade_overlay_delete-IsConsistent :
    (base : Base) (overlay : OverlaySegment) (deleted_frn : ℕ)
    → IsConsistent overlay
    → (after : OverlaySegment) × (cascade_overlay_delete base overlay deleted_frn ≡ some after)
      × IsConsistent after
cascade_overlay_delete-IsConsistent base overlay deleted_frn c =
    let (victims, e, z) = cascade_victims base overlay deleted_frn in
    let latest = latest_overlay_slots_by_frn overlay.records in
    (
      delete_victims latest overlay (sorted_victims victims),
      e,
      delete_victims-IsConsistent latest overlay (sorted_victims victims) z c,
    )
