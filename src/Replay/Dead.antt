-- ===== src/Replay/Dead.antt =====
-- cmd/seekfs/service_replay.go: the dead references of `cascadeOverlayDelete`, said of the records and their
-- parents, and the walk of the code that comes to them.
use seekfs.Common.{
  ℕ, zero, suc, ◌+◌, ◌<◌, ◌≡◌, ◌⊎◌, refl, sym, ap, ◌∙◌, Bool-cases, Option-cases, true, false, ◌||◌,
  inl, inr, Option, none, some, List, [], ◌∷◌, get_elem?, leb, ◌==◌, ==_iff, if◌then◌else◌, arith,
}
use seekfs.Replay.BaseIds.{contains}
use seekfs.Replay.Volume.{
  CompactRecord, Base, OverlaySegment, lookup, record_count, compact_record, id_for_frn,
}
use seekfs.Replay.Cascade.{
  dead, alive, up, latest_from, latest_overlay_slots_by_frn, fate, base_fate, slot_fate,
  latest_record,
}
use seekfs.Replay.Doom.{walk, dies_within, Doomed}
use seekfs.Replay.Entries.{lookup-latest_cons}

-- The last record of the reference.
abbrev pub last_record : List CompactRecord → ℕ → Option CompactRecord
last_record [] f = none
last_record (rec ∷ records) f = elim (last_record records f) [
  | some later ↦ some later
  | none ↦ if rec.frn == f then some rec else none
]

-- There is no slot and no last record, or the slot is the last record's.
abbrev pub LastSlot : ℕ → List CompactRecord → ℕ → Type 0
LastSlot i records f =
    ((lookup f (latest_from i records) ≡ none) × (last_record records f ≡ none))
    ⊎ ((k : ℕ) × (rec : CompactRecord) × (lookup f (latest_from i records) ≡ some (i + k))
        × (get_elem? records k ≡ some rec)
        × (last_record records f ≡ some rec))

pub latest_from-LastSlot :
    (i : ℕ) (records : List CompactRecord) (f : ℕ) → (f == 0) ≡ false → LastSlot i records f
unfolding latest_from
latest_from-LastSlot i [] f z = inl (refl, refl)
latest_from-LastSlot i (rec ∷ records) f z =
    let cons = lookup-latest_cons i rec records f in
    elim (latest_from-LastSlot (i + 1) records f z) [
      | inr (k, found, l, g, e) ↦
          let place : i + 1 + k ≡ i + suc k = omega arith in
          inr (suc k, found, cons ∙ rw l (ap some place), g, rw (last_record, e) refl)
      | inl (l, e) ↦ elim (Bool-cases (f == rec.frn)) [
        | inl y ↦
            let back : (rec.frn == f) ≡ true = ground (arith, y) in
            let some_frn : (rec.frn == 0) ≡ false = ground (arith, y, z) in
            let place : i ≡ i + 0 = omega arith in
            inr (
              0,
              rec,
              cons ∙ rw (l, some_frn, y) (ap some place),
              refl,
              rw (last_record, e, back) refl,
            )
        | inr n ↦
            let back : (rec.frn == f) ≡ false = ground (arith, n) in
            let absent : lookup f (latest_from i (rec ∷ records)) ≡ none =
              elim (Bool-cases (rec.frn == 0)) [
                | inl y ↦ cons ∙ rw (l, y) refl
                | inr o ↦ cons ∙ rw (l, o, n) refl
              ] in
            inl (absent, rw (last_record, e, back) refl)
      ]
    ]

module _ (base : Base) (overlay : OverlaySegment) (deleted_frn : ℕ) where
  -- The reference is the deleted directory's, or its last record in the overlay is deleted, or it has none
  -- and its base record is marked; or the record that counts, the last in the overlay or else the
  -- base's, has a dead parent other than itself.
  pub data Dead : ℕ → Type 0 where
    the_deleted : (f : ℕ) → (f == 0) ≡ false → f ≡ deleted_frn → Dead f
    deleted_entry :
        (f : ℕ) (rec : CompactRecord)
        → (f == 0) ≡ false
        → last_record overlay.records f ≡ some rec
        → rec.deleted ≡ true
        → Dead f
    below_entry :
        (f : ℕ) (rec : CompactRecord)
        → (f == 0) ≡ false
        → last_record overlay.records f ≡ some rec
        → rec.deleted ≡ false
        → (rec.parent_frn == f) ≡ false
        → Dead rec.parent_frn
        → Dead f
    marked :
        (f id : ℕ)
        → (f == 0) ≡ false
        → last_record overlay.records f ≡ none
        → id_for_frn base f ≡ some id
        → contains overlay.tombstone id ≡ true
        → Dead f
    below_base :
        (f id : ℕ)
        → (f == 0) ≡ false
        → last_record overlay.records f ≡ none
        → id_for_frn base f ≡ some id
        → id < record_count base
        → ((compact_record base id).parent_frn == f) ≡ false
        → Dead (compact_record base id).parent_frn
        → Dead f

  -- A live entry of another reference below a dead parent.
  pub record IsLost (f : ℕ) (rec : CompactRecord) : Type 0 where
    pub other : (f == deleted_frn) ≡ false
    pub live : rec.deleted ≡ false
    pub apart : (rec.parent_frn == f) ≡ false
    pub parent : Dead rec.parent_frn

  abbrev slots : List (ℕ × ℕ)
  slots = latest_overlay_slots_by_frn overlay.records

  latest-last :
      (f : ℕ)
      → (f == 0) ≡ false
      → latest_record base overlay slots f ≡ last_record overlay.records f
  unfolding latest_overlay_slots_by_frn
  latest-last f z = elim (latest_from-LastSlot 0 overlay.records f z) [
    | inl (l, e) ↦ rw (latest_record, l, e) refl
    | inr (k, rec, l, g, e) ↦
        let place : 0 + k ≡ k = omega arith in rw (latest_record, l, place, g, e) refl
  ]

  walk-last :
      (f : ℕ)
      → (f == 0) ≡ false
      → (f == deleted_frn) ≡ false
      → walk (fate base overlay slots) deleted_frn f
        ≡ slot_fate base overlay slots f (last_record overlay.records f)
  unfolding walk fate
  walk-last f z d = rw (z, d) (ap (slot_fate base overlay slots f) (latest-last f z))

  -- A fate from which the walk comes to a dead reference.
  from_dead :
      (f : ℕ)
      → walk (fate base overlay slots) deleted_frn f ≡ dead
      → Doomed (fate base overlay slots) deleted_frn f
  unfolding Doomed dies_within
  from_dead f w = (1, rw (dies_within, w) refl)

  from_up :
      (f p : ℕ)
      → walk (fate base overlay slots) deleted_frn f ≡ up p
      → Doomed (fate base overlay slots) deleted_frn p
      → Doomed (fate base overlay slots) deleted_frn f
  unfolding Doomed dies_within
  from_up f p w (n, d) = (suc n, rw (dies_within, w) d)

  at_deleted :
      (f : ℕ)
      → (f == 0) ≡ false
      → (f == deleted_frn) ≡ true
      → walk (fate base overlay slots) deleted_frn f ≡ dead
  unfolding walk
  at_deleted f z d = rw (z, d) refl

  pub Dead-nonzero : (f : ℕ) → Dead f → (f == 0) ≡ false
  Dead-nonzero _ (the_deleted f z e) = z
  Dead-nonzero _ (deleted_entry f rec z l d) = z
  Dead-nonzero _ (below_entry f rec z l d o p) = z
  Dead-nonzero _ (marked f id z l i c) = z
  Dead-nonzero _ (below_base f id z l i c o p) = z

  unless_deleted :
      (f : ℕ)
      → (f == 0) ≡ false
      → ((f == deleted_frn) ≡ false → Doomed (fate base overlay slots) deleted_frn f)
      → Doomed (fate base overlay slots) deleted_frn f
  unless_deleted f z h = elim (Bool-cases (f == deleted_frn)) [
    | inl y ↦ from_dead f (at_deleted f z y)
    | inr o ↦ h o
  ]

  pub Dead-Doomed : (f : ℕ) → Dead f → Doomed (fate base overlay slots) deleted_frn f
  Dead-Doomed _ (the_deleted f z e) = from_dead f (at_deleted f z (ground (arith, e)))
  Dead-Doomed _ (deleted_entry f rec z l d) =
      unless_deleted f z (λ o. from_dead f (walk-last f z o ∙ rw (l, d) refl))
  Dead-Doomed _ (below_entry f rec z l d a p) =
      let some_parent = Dead-nonzero rec.parent_frn p in
      let on = Dead-Doomed rec.parent_frn p in
      unless_deleted f z
        (λ o. from_up f rec.parent_frn (walk-last f z o ∙ rw (l, d, some_parent, a) refl) on)
  Dead-Doomed _ (marked f id z l i c) =
      unless_deleted f z (λ o. from_dead f (walk-last f z o ∙ rw (l, base_fate, i, c) refl))
  Dead-Doomed _ (below_base f id z l i c a p) =
      let parent_frn = (compact_record base id).parent_frn in
      let some_parent = Dead-nonzero parent_frn p in
      let on = Dead-Doomed parent_frn p in
      let inside : leb (record_count base) id ≡ false = ground (arith, c) in
      unless_deleted f z (λ o. elim (Bool-cases (contains overlay.tombstone id)) [
        | inl y ↦ from_dead f (walk-last f z o ∙ rw (l, base_fate, i, y) refl)
        | inr n ↦
            from_up f parent_frn
              (walk-last f z o ∙ rw (l, base_fate, i, n, inside, some_parent, a) refl) on
      ])

  ends_alive :
      (n f : ℕ)
      → walk (fate base overlay slots) deleted_frn f ≡ alive
      → dies_within (fate base overlay slots) deleted_frn (suc n) f ≡ true
      → false ≡ true
  unfolding dies_within
  ends_alive n f w h = sym (rw (dies_within, w) refl) ∙ h

  goes_on :
      (n f p : ℕ)
      → walk (fate base overlay slots) deleted_frn f ≡ up p
      → dies_within (fate base overlay slots) deleted_frn (suc n) f ≡ true
      → dies_within (fate base overlay slots) deleted_frn n p ≡ true
  unfolding dies_within
  goes_on n f p w h = sym (rw (dies_within, w) refl) ∙ h

  pub Doomed-Dead :
      (n f : ℕ) → dies_within (fate base overlay slots) deleted_frn n f ≡ true → Dead f
  unfolding dies_within walk
  Doomed-Dead zero f h = cc
  Doomed-Dead (suc n) f h = elim (Bool-cases (f == 0)) [
    | inl y ↦ let e = ends_alive n f (rw y refl) h in cc
    | inr z ↦ elim (Bool-cases (f == deleted_frn)) [
      | inl y ↦ the_deleted f z ((==_iff f deleted_frn).0 y)
      | inr o ↦
          let w = walk-last f z o in
          elim (Option-cases (last_record overlay.records f)) [
            | inr (rec, l) ↦ elim (Bool-cases rec.deleted) [
              | inl d ↦ deleted_entry f rec z l d
              | inr d ↦ elim (Bool-cases (rec.parent_frn == 0 || (rec.parent_frn == f))) [
                | inl y ↦ let e = ends_alive n f (w ∙ rw (l, d, y) refl) h in cc
                | inr a ↦
                    let on = goes_on n f rec.parent_frn (w ∙ rw (l, d, a) refl) h in
                    below_entry f rec z l d (ground (arith, a)) (Doomed-Dead n rec.parent_frn on)
              ]
            ]
            | inl l ↦ elim (Option-cases (id_for_frn base f)) [
              | inl i ↦ let e = ends_alive n f (w ∙ rw (l, base_fate, i) refl) h in cc
              | inr (id, i) ↦ elim (Bool-cases (contains overlay.tombstone id)) [
                | inl c ↦ marked f id z l i c
                | inr c ↦ elim (Bool-cases (leb (record_count base) id)) [
                  | inl b ↦ let e = ends_alive n f (w ∙ rw (l, base_fate, i, c, b) refl) h in cc
                  | inr b ↦
                      let parent_frn = (compact_record base id).parent_frn in
                      elim (Bool-cases (parent_frn == 0 || (parent_frn == f))) [
                        | inl y ↦
                            let e = ends_alive n f (w ∙ rw (l, base_fate, i, c, b, y) refl) h in cc
                        | inr a ↦
                            let on =
                              goes_on n f parent_frn (w ∙ rw (l, base_fate, i, c, b, a) refl) h in
                            below_base f id z l i (ground (arith, b)) (ground (arith, a))
                              (Doomed-Dead n parent_frn on)
                      ]
                ]
              ]
            ]
          ]
    ]
  ]
