-- ===== src/Replay/Latest.antt =====
-- cmd/seekfs/search_overlay.go: `latestOverlaySlotsByFRN`, and the references that a walk up the parents meets.
use seekfs.Common.{
  ℕ, zero, suc, ◌+◌, ◌<◌, ◌≡◌, refl, sym, ap, ◌∙◌, Bool, Bool-cases, true, false, ◌&&◌, inl, inr,
  none, some, Option-cases, List, [], ◌∷◌, ◌++◌, map, length, get_or, get_elem?, ltb, leb, ◌==◌,
  ==_iff, if◌then◌else◌, All, All-map_pred, arith,
}
use seekfs.Packed.Search.{search}
use seekfs.Replay.BaseIds.{member, member-append}
use seekfs.Replay.Volume.{CompactRecord, Base, OverlaySegment, lookup, search_frns, id_for_frn}
use seekfs.Replay.Cascade.{
  alive, dead, up, latest_from, base_fate, slot_fate, latest_record, fate, references,
}
use seekfs.Replay.Doom.{walk}
use seekfs.Replay.Resolve.{Among}

-- No reference has two entries.
abbrev pub Keyed : List (ℕ × ℕ) → Type 0
Keyed [] = Unit
Keyed (e ∷ m) = (lookup e.0 m ≡ none) × Keyed m

pub latest_from-Keyed : (i : ℕ) (records : List CompactRecord) → Keyed (latest_from i records)
unfolding latest_from
latest_from-Keyed i [] = tt
latest_from-Keyed i (rec ∷ records) =
    let rest = latest_from-Keyed (i + 1) records in
    elim (Bool-cases (rec.frn == 0)) [
      | inl z ↦ rw z rest
      | inr z ↦ elim (Option-cases (lookup rec.frn (latest_from (i + 1) records))) [
        | inl n ↦ rw (z, n) (n, rest)
        | inr (slot, s) ↦ rw (z, s) rest
      ]
    ]

-- A record of the reference that stands `k` places behind `i`.
abbrev pub FoundAt : ℕ → List CompactRecord → ℕ → ℕ → Type 0
FoundAt i records f slot =
    (k : ℕ) × (slot ≡ i + k)
    × ((rec : CompactRecord) × (get_elem? records k ≡ some rec) × (rec.frn ≡ f))

found_later :
    (i : ℕ) (rec : CompactRecord) (records : List CompactRecord) (f slot : ℕ)
    → FoundAt (i + 1) records f slot
    → FoundAt i (rec ∷ records) f slot
found_later i rec records f slot (k, e, r) = (suc k, omega (arith, e), r)

-- The slot that is looked up has a record of the reference.
pub lookup-latest_from :
    (i : ℕ) (records : List CompactRecord) (f slot : ℕ)
    → lookup f (latest_from i records) ≡ some slot
    → FoundAt i records f slot
unfolding latest_from
lookup-latest_from i [] f slot h = cc
lookup-latest_from i (rec ∷ records) f slot h =
    let latest = latest_from (i + 1) records in
    let later = λ (e : lookup f latest ≡ some slot).
      found_later i rec records f slot (lookup-latest_from (i + 1) records f slot e) in
    elim (Bool-cases (rec.frn == 0)) [
      | inl z ↦ later (sym (rw (latest_from, z) refl) ∙ h)
      | inr z ↦ elim (Option-cases (lookup rec.frn latest)) [
        | inr (s, e) ↦ later (sym (rw (latest_from, z, e) refl) ∙ h)
        | inl e ↦
            let first : lookup f ((rec.frn, i) ∷ latest) ≡ some slot =
              sym (rw (latest_from, z, e) refl) ∙ h in
            elim (Bool-cases (f == rec.frn)) [
              | inr n ↦ later (sym (rw n refl) ∙ first)
              | inl y ↦
                  let here : some i ≡ some slot = sym (rw y refl) ∙ first in
                  let at : i ≡ slot = cc in
                  (0, omega (arith, at), (rec, refl, sym ((==_iff f rec.frn).0 y)))
            ]
      ]
    ]

pub lookup-member :
    (m : List (ℕ × ℕ)) (f v : ℕ) → lookup f m ≡ some v → member f (map (λ e. e.0) m) ≡ true
lookup-member [] f v h = cc
lookup-member (e ∷ m) f v h = elim (Bool-cases (f == e.0)) [
  | inl y ↦ rw y refl
  | inr n ↦ rw n (lookup-member m f v (sym (rw n refl) ∙ h))
]

-- Each entry of a list whose references are apart is the one that is looked up.
pub Keyed-lookup : (m : List (ℕ × ℕ)) → Keyed m → All (λ e. lookup e.0 m ≡ some e.1) m
Keyed-lookup [] k = tt
Keyed-lookup ((f, slot) ∷ m) k =
    let here : (f == f) ≡ true = ground arith in
    (
      rw here refl,
      All-map_pred (λ e. lookup e.0 m ≡ some e.1) (λ e. lookup e.0 ((f, slot) ∷ m) ≡ some e.1)
          (λ e h. elim (Bool-cases (e.0 == f)) [
            | inl y ↦
                let none_there : none ≡ some e.1 =
                  sym k.0 ∙ ap (λ z. lookup z m) (sym ((==_iff e.0 f).0 y)) ∙ h in
                cc
            | inr n ↦ rw n h
          ])
          m (Keyed-lookup m k.1),
    )

get_or-member : (xs : List ℕ) (i f : ℕ) → i < length xs → get_or xs i 0 ≡ f → member f xs ≡ true
get_or-member [] i f l h = absurd (omega (arith, l))
get_or-member (x ∷ xs) zero f l h = ground (arith, h)
get_or-member (x ∷ xs) (suc i) f l h = ground (arith, get_or-member xs i f (omega (arith, l)) h)

of_test : (b : Bool) (x id : ℕ) → (if b then some x else none) ≡ some id → b ≡ true
of_test true x id h = refl
of_test false x id h = cc

module _ (base : Base) where
  search_frns-member : (f id : ℕ) → search_frns base f ≡ some id → member f base.frns ≡ true
  search_frns-member f id h =
      let i = search (length base.frns) (λ i. leb f (get_or base.frns i 0)) in
      let found =
        of_test
          (ltb i (length base.frns)
            && ltb i (length base.frn_record_ids)
            && (get_or base.frns i 0 == f))
          (get_or base.frn_record_ids i 0) id h in
      get_or-member base.frns i f (ground (arith, found)) (ground (arith, found))

  id_for_frn-member :
      (f id : ℕ)
      → id_for_frn base f ≡ some id
      → member f (map (λ e. e.0) base.frn_to_id ++ base.frns) ≡ true
  unfolding id_for_frn
  id_for_frn-member f id h =
      let keys = map (λ e. e.0) base.frn_to_id in
      elim (Bool-cases (f == 0)) [
        | inl z ↦ let e : none ≡ some id = sym (rw (id_for_frn, z) refl) ∙ h in cc
        | inr z ↦ elim (Option-cases (lookup f base.frn_to_id)) [
          | inr (v, e) ↦
              rw (member-append keys base.frns f, lookup-member base.frn_to_id f v e) refl
          | inl e ↦
              let searched = search_frns-member f id (sym (rw (id_for_frn, z, e) refl) ∙ h) in
              ground (arith, member-append keys base.frns f, searched)
        ]
      ]

  fate_nowhere :
      (overlay : OverlaySegment) (latest : List (ℕ × ℕ)) (f : ℕ)
      → lookup f latest ≡ none
      → id_for_frn base f ≡ none
      → fate base overlay latest f ≡ alive
  unfolding fate
  fate_nowhere overlay latest f l i =
      let nowhere : latest_record base overlay latest f ≡ none = rw (latest_record, l) refl in
      let based : base_fate base overlay latest f ≡ alive = rw (base_fate, i) refl in
      ap (slot_fate base overlay latest f) nowhere ∙ based

  -- The record at the latest slot says what becomes of its reference.
  pub fate-record :
      (overlay : OverlaySegment) (latest : List (ℕ × ℕ)) (f slot : ℕ) (rec : CompactRecord)
      → lookup f latest ≡ some slot
      → get_elem? overlay.records slot ≡ some rec
      → fate base overlay latest f ≡ slot_fate base overlay latest f (some rec)
  unfolding fate
  fate-record overlay latest f slot rec l g =
      let found : latest_record base overlay latest f ≡ some rec = rw (latest_record, l, g) refl in
      ap (slot_fate base overlay latest f) found

  pub references-Among :
      (overlay : OverlaySegment) (latest : List (ℕ × ℕ)) (deleted_frn : ℕ)
      → Among (fate base overlay latest) deleted_frn (references base latest)
  unfolding Among walk fate references
  references-Among overlay latest deleted_frn f p w =
      let named = map (λ e. e.0) latest in
      let based = map (λ e. e.0) base.frn_to_id ++ base.frns in
      elim (Bool-cases (f == 0)) [
        | inl z ↦ let e : alive ≡ up p = sym (rw (walk, z) refl) ∙ w in cc
        | inr z ↦ elim (Bool-cases (f == deleted_frn)) [
          | inl d ↦ let e : dead ≡ up p = sym (rw (walk, z, d) refl) ∙ w in cc
          | inr d ↦ elim (Option-cases (lookup f latest)) [
            | inr (slot, l) ↦ rw (member-append named based f, lookup-member latest f slot l) refl
            | inl l ↦ elim (Option-cases (id_for_frn base f)) [
              | inr (id, i) ↦
                  let based_member = id_for_frn-member f id i in
                  ground (arith, member-append named based f, based_member)
              | inl i ↦
                  let e : alive ≡ up p =
                    sym (rw (walk, z, d) (fate_nowhere overlay latest f l i)) ∙ w in
                  cc
            ]
          ]
        ]
      ]
