-- ===== src/Packed/Runs.antt =====
-- cmd/seekfs/packed_records.go: the store's theorems at concrete stores.
use seekfs.Common.{
  ℕ, zero, suc, pos, negsuc, ◌+◌, ◌-◌, ◌^◌, ◌≤◌, ◌&&◌, leb, ◌==◌, if◌then◌else◌, get_or, ◌≡◌, ◌≢◌,
  refl, none, some, List, [], ◌∷◌, arith, length,
}
use seekfs.Packed.Record.{PackedRecords}
use seekfs.Packed.SideTable.Entries.{IsValid}
use seekfs.Packed.Modes.{mode_at, set_mode, mode_at-set_mode}
use seekfs.Packed.Sizes.{SizesValid, size_at, set_size, size_at-set_size}
use seekfs.Packed.Times.{TimesValid}
use seekfs.Packed.Names.Defs.{name_at, set_name, lower_name_at, set_lower_name}
use seekfs.Packed.Names.Laws.{NamesValid, name_at-set_name}
use seekfs.Packed.Names.Lower.{lower_name_at-set_lower_name, lower_name_cut}

-- Two records: a directory and a file in it, whose size is over 32 bits.
abbrev store : PackedRecords
store = record {
  frns = 5 ∷ 70 ∷ [];
  parent_frn_extras = [];
  parents = negsuc 0 ∷ pos 0 ∷ [];
  name_offs = 0 ∷ 1 ∷ [];
  name_lens = 1 ∷ 2 ∷ [];
  lower_offs = (2 ^ 32 - 1) ∷ 0 ∷ [];
  dir_bits = 1 ∷ [];
  mode_extra = record { ids = 1 ∷ []; values = 438 ∷ [] };
  size32 = some (0 ∷ (2 ^ 32 - 1) ∷ []);
  size64 = record { ids = 1 ∷ []; values = pos 5000000000 ∷ [] };
  mod_unix = none;
  deleted_bits = 0 ∷ [];
  name_blob = 97 ∷ 66 ∷ 67 ∷ [];
  lower_blob = 98 ∷ 99 ∷ [];
}

modes-IsValid : IsValid store.mode_extra
modes-IsValid = record { sorted = (tt, tt); paired = refl }

sizes-SizesValid : SizesValid store
sizes-SizesValid = record { column = refl; table = record { sorted = (tt, tt); paired = refl } }

times-TimesValid : TimesValid store
unfolding TimesValid
times-TimesValid = refl

inside_of :
    (k : ℕ) → get_or store.name_offs k 0 + get_or store.name_lens k 0 ≤ length store.name_blob
inside_of zero = omega arith
inside_of (suc zero) = omega arith
inside_of (suc (suc k)) = omega arith

names-NamesValid : NamesValid store
names-NamesValid = record { offs = refl; lens = refl; inside = inside_of }

-- ASCII capitals, and U+023A, two bytes, whose lowercase letter has three.
abbrev to_lower : List ℕ → List ℕ
to_lower [] = []
to_lower (x ∷ xs) =
    if x == 200
    then 226 ∷ 177 ∷ to_lower xs
    else if x == 186
    then 165 ∷ to_lower xs
    else if leb 65 x && leb x 90
    then (x + 32) ∷ to_lower xs
    else x ∷ to_lower xs

mode_at-set_mode_example : mode_at (set_mode store 1 (2 ^ 31)) 1 ≡ 2 ^ 31
mode_at-set_mode_example =
    mode_at-set_mode store 1 (2 ^ 31) 1 modes-IsValid (omega arith) (omega arith) (omega arith)

size_at-set_size_example : size_at (set_size store 0 (pos 6000000000)) 0 ≡ pos 6000000000
size_at-set_size_example =
    size_at-set_size store 0 (pos 6000000000) 0 sizes-SizesValid (omega arith) (omega arith)
      (omega arith)

name_at-set_name_example : name_at (set_name store 0 (68 ∷ 69 ∷ [])) 1 ≡ name_at store 1
name_at-set_name_example =
    name_at-set_name store 0 (68 ∷ 69 ∷ []) 1 names-NamesValid (omega arith) (omega arith)
      (omega arith)

lower_name_at-set_lower_name_example :
    lower_name_at to_lower
      (set_lower_name to_lower (set_name store 0 (68 ∷ 69 ∷ [])) 0 (68 ∷ 69 ∷ []))
      0
    ≡ (100 ∷ 101 ∷ [])
lower_name_at-set_lower_name_example =
    lower_name_at-set_lower_name to_lower store 0 (68 ∷ 69 ∷ []) names-NamesValid refl (omega arith)
      (omega arith) (omega arith) (omega arith) (omega arith)

lower_name_cut_example :
    lower_name_at to_lower
      (set_lower_name to_lower (set_name store 0 (200 ∷ 186 ∷ [])) 0 (200 ∷ 186 ∷ []))
      0
    ≢ (226 ∷ 177 ∷ 165 ∷ [])
lower_name_cut_example =
    lower_name_cut to_lower store 0 (200 ∷ 186 ∷ []) names-NamesValid refl (omega arith)
      (omega arith) (omega arith) (omega arith) (omega arith)
