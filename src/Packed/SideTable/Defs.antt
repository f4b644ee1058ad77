-- ===== src/Packed/SideTable/Defs.antt =====
-- cmd/seekfs/packed_records.go: the sparse side tables `ModeExtraIDs`/`ModeExtraValues` and
-- `Size64IDs`/`Size64Values`, two slices sorted by id.
use seekfs.Common.{
  ℕ, suc, Bool, ◌&&◌, Option, none, List, ◌∷◌, ◌++◌, ltb, leb, ◌==◌, if◌then◌else◌, length, get_or,
  get_elem?, set, take, drop,
}
use seekfs.Packed.Search.{search}

pub record SideTable (V : Type 0) : Type 0 where
  pub ids : List ℕ
  pub values : List V

-- `sort.Search(len(ids), func(j int) bool { return ids[j] >= id })`
unfoldable pub slot : ℕ → List ℕ → ℕ
unfolding search
slot id ids = search (length ids) (λ j. leb id (get_or ids j 0))

-- `j < len(ids) && ids[j] == id`
unfoldable pub holds_at : ℕ → ℕ → List ℕ → Bool
holds_at j id ids = ltb j (length ids) && get_or ids j 0 == id

-- `append` and `copy` move what stands from `j` on one place up, and `j` is written.
abbrev pub insert_at {ℓ} : {A : Type ℓ} → ℕ → A → List A → List A
insert_at j v xs = take j xs ++ (v ∷ drop j xs)

abbrev pub remove_at {ℓ} : {A : Type ℓ} → ℕ → List A → List A
remove_at j xs = take j xs ++ drop (suc j) xs

module _ {V : Type 0} where
  -- The value at `id`; none where the slices have no entry for it.
  unfoldable pub lookup : ℕ → SideTable V → Option V
  lookup id t =
      let j = slot id t.ids in
      if holds_at j id t.ids && ltb j (length t.values) then get_elem? t.values j else none

  unfoldable pub upsert : ℕ → V → SideTable V → SideTable V
  upsert id v t =
      let j = slot id t.ids in
      if holds_at j id t.ids
      then record t { values = set t.values j v }
      else record { ids = insert_at j id t.ids; values = insert_at j v t.values }

  unfoldable pub remove : ℕ → SideTable V → SideTable V
  remove id t =
      let j = slot id t.ids in
      if holds_at j id t.ids
      then record { ids = remove_at j t.ids; values = remove_at j t.values }
      else t
