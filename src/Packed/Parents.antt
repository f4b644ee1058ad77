-- ===== src/Packed/Parents.antt =====
-- cmd/seekfs/packed_records.go: `parentFRNAt` and `setParentFRN`. A parent's reference number is
-- derived from the parent's row; the map holds those that are not what is derived.
use seekfs.Common.{
  ℕ, pos, negsuc, ◌<◌, ◌≡◌, refl, sym, Bool-cases, false, inl, inr, Option, none, some, List, [],
  ◌∷◌, arith, ltb, leb, ◌==◌, ==_iff, if◌then◌else◌, get_or,
}
use seekfs.Packed.Record.{PackedRecords, len}

module _ {V : Type 0} where
  abbrev pub find : ℕ → List (ℕ × V) → Option V
  find k [] = none
  find k ((x, v) ∷ entries) = if x == k then some v else find k entries

  abbrev pub delete : ℕ → List (ℕ × V) → List (ℕ × V)
  delete k [] = []
  delete k ((x, v) ∷ entries) = if x == k then delete k entries else (x, v) ∷ delete k entries

  pub find-delete :
      (k i : ℕ) (entries : List (ℕ × V))
      → find k (delete i entries) ≡ (if k == i then none else find k entries)
  find-delete k i [] = ground arith
  find-delete k i ((x, v) ∷ entries) = ground (arith, find-delete k i entries)

  pub find-assign :
      (k i : ℕ) (v : V) (entries : List (ℕ × V))
      → find k ((i, v) ∷ delete i entries) ≡ (if k == i then some v else find k entries)
  find-assign k i v entries = ground (arith, find-delete k i entries)

-- The number that the columns give: the parent's, or the record's own where the parent is no row.
unfoldable pub derived : PackedRecords → ℕ → ℕ
derived p i = elim (get_or p.parents i (pos 0)) [
  | pos parent ↦ if ltb parent (len p) then get_or p.frns parent 0 else get_or p.frns i 0
  | negsuc n ↦ get_or p.frns i 0
]

abbrev or_else : Option ℕ → ℕ → ℕ
or_else none d = d
or_else (some v) d = v

unfoldable pub parent_frn_at : PackedRecords → ℕ → ℕ
parent_frn_at p i = if leb (len p) i then 0 else or_else (find i p.parent_frn_extras) (derived p i)

unfoldable pub set_parent_frn : PackedRecords → ℕ → ℕ → PackedRecords
set_parent_frn p i parent_frn =
    if leb (len p) i
    then p
    else if parent_frn == derived p i
    then record p { parent_frn_extras = delete i p.parent_frn_extras }
    else record p { parent_frn_extras = (i, parent_frn) ∷ delete i p.parent_frn_extras }

-- Setting the parent's number of a record is what reading it gives, whether it is stored or derived,
-- and no other record's changes.
pub parent_frn_at-set_parent_frn :
    (p : PackedRecords) (i v k : ℕ)
    → i < len p
    → parent_frn_at (set_parent_frn p i v) k ≡ (if k == i then v else parent_frn_at p k)
unfolding parent_frn_at set_parent_frn derived
parent_frn_at-set_parent_frn p i v k hi =
    let e : leb (len p) i ≡ false = ground arith in
    elim (Bool-cases (v == derived p i)) [
      | inl c ↦
          rw (e, c, find-delete k i p.parent_frn_extras)
            (elim (Bool-cases (k == i)) [
              | inl y ↦ rw (y, (==_iff k i).0 y, e) (sym ((==_iff v (derived p i)).0 c))
              | inr n ↦ rw n refl
            ])
      | inr c ↦
          rw (e, c, find-assign k i v p.parent_frn_extras)
            (elim (Bool-cases (k == i)) [
              | inl y ↦ rw (y, (==_iff k i).0 y, e) refl
              | inr n ↦ rw n refl
            ])
    ]
