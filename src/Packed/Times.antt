-- ===== src/Packed/Times.antt =====
-- cmd/seekfs/packed_records.go: `modUnixAt` and `setModUnix`.
use seekfs.Common.{
  ℕ, ℤ, pos, is_zero, ◌&&◌, ◌<◌, ◌≡◌, refl, ◌∙◌, Bool-cases, true, false, inl, inr, Option, none,
  some, List, length, get_or, set, get_or-set, get_or-replicate, length-set, arith, ltb, leb, ◌==◌,
  if◌then◌else◌,
}
use seekfs.Packed.Record.{PackedRecords, len}
use seekfs.Packed.Sizes.{made, is_missing, zero_value}

abbrev time_cell : Option (List ℤ) → ℕ → ℤ
time_cell none i = pos 0
time_cell (some column) i = get_or column i (pos 0)

unfoldable pub mod_unix_at : PackedRecords → ℕ → ℤ
mod_unix_at p i = time_cell p.mod_unix i

unfoldable pub set_mod_unix : PackedRecords → ℕ → ℤ → PackedRecords
set_mod_unix p i value =
    if leb (len p) i
    then p
    else if is_missing p.mod_unix && is_zero value
    then p
    else record p { mod_unix = some (set (made (pos 0) (len p) p.mod_unix) i value) }

-- The column of times, where there is one, has one place a record.
unfoldable pub TimesValid : PackedRecords → Type 0
TimesValid p = length (made (pos 0) (len p) p.mod_unix) ≡ len p

time_cell-made :
    (c : Option (List ℤ)) (n k : ℕ) → get_or (made (pos 0) n c) k (pos 0) ≡ time_cell c k
time_cell-made none n k = get_or-replicate n (pos 0) k
time_cell-made (some c) n k = refl

time_missing : (c : Option (List ℤ)) (k : ℕ) → is_missing c ≡ true → time_cell c k ≡ pos 0
time_missing none k h = refl
time_missing (some c) k h = absurd (ground (arith, h))

-- Setting the time of a record is what reading it gives, and no other record's time changes.
pub mod_unix_at-set_mod_unix :
    (p : PackedRecords) (i : ℕ) (value : ℤ) (k : ℕ)
    → TimesValid p
    → i < len p
    → mod_unix_at (set_mod_unix p i value) k ≡ (if k == i then value else mod_unix_at p k)
unfolding mod_unix_at set_mod_unix TimesValid
mod_unix_at-set_mod_unix p i value k v hi =
    let e : leb (len p) i ≡ false = ground arith in
    elim (Bool-cases (is_missing p.mod_unix && is_zero value)) [
      | inl c ↦
          let m : is_missing p.mod_unix ≡ true = ground (arith, c) in
          let z : is_zero value ≡ true = ground (arith, c) in
          rw (e, c, time_missing p.mod_unix k m, zero_value value z)
            (elim (Bool-cases (k == i)) [ inl y ↦ rw y refl | inr n ↦ rw n refl ])
      | inr c ↦
          let l : ltb i (length (made (pos 0) (len p) p.mod_unix)) ≡ true = ground (arith, v, hi) in
          rw
            (
              e,
              c,
              get_or-set (made (pos 0) (len p) p.mod_unix) i value k (pos 0),
              l,
              time_cell-made,
            )
            (elim (Bool-cases (k == i)) [ inl y ↦ rw y refl | inr n ↦ rw n refl ])
    ]

-- The column of times stays as long as the records.
pub set_mod_unix-TimesValid :
    (p : PackedRecords) (i : ℕ) (value : ℤ) → TimesValid p → TimesValid (set_mod_unix p i value)
unfolding set_mod_unix TimesValid
set_mod_unix-TimesValid p i value v = elim (Bool-cases (leb (len p) i)) [
  | inl e ↦ rw e v
  | inr e ↦ elim (Bool-cases (is_missing p.mod_unix && is_zero value)) [
    | inl c ↦ rw (e, c) v
    | inr c ↦ rw (e, c) (length-set (made (pos 0) (len p) p.mod_unix) i value ∙ v)
  ]
]
