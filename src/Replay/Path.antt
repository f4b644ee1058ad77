-- ===== src/Replay/Path.antt =====
-- cmd/seekfs/search_overlay.go and query_parse.go: `overlayRecordPath`, the path of a record of the overlay,
-- with `joinOverlayPath` and `reconstructCompactPathCached`. The path of a directory in the overlay is
-- built by the recursion over the overlay's map, on fuel: `none` is the end of the fuel, which no
-- amount spares where the parents form a circle, and `some []` is the empty text that the code returns
-- where there is no path. The index is asked once at most, at the top, so that the cache that
-- `refreshOverlayFileInfo` passes is empty there.
use seekfs.Common.{
  ℕ, zero, suc, ℤ, pos, negsuc, ◌==◌, leb, Bool, true, false, ◌&&◌, ◌||◌, not, Option, none, some,
  List, [], ◌∷◌, ◌++◌, get_elem?, if◌then◌else◌,
}
use seekfs.Replay.BaseIds.{member}
use seekfs.Replay.Volume.{CompactRecord, Base, compact_record, record_count, id_for_frn}

-- The names of the volume and of the index, and what filepath, strings and os give. What os.Stat gives
-- of a path, the size and the time, may differ from one record's reading to another's: it takes the slot.
pub record Host : Type 0 where
  pub volume : List ℕ
  pub index_volume : List ℕ
  pub roots : List (List ℕ)
  pub base_name : List ℕ → List ℕ
  pub volume_name : List ℕ → List ℕ
  pub equal_fold : List ℕ → List ℕ → Bool
  pub join : List ℕ → List ℕ → List ℕ
  pub stat : ℕ → List ℕ → Option (ℤ × ℤ)

-- `s == ""`
abbrev pub is_empty : List ℕ → Bool
is_empty [] = true
is_empty (b ∷ s) = false

abbrev pub same_text : List ℕ → List ℕ → Bool
same_text [] [] = true
same_text [] (c ∷ t) = false
same_text (b ∷ s) [] = false
same_text (b ∷ s) (c ∷ t) = b == c && same_text s t

-- Whether the text ends with `\` or `/`.
abbrev pub ends_in_slash : List ℕ → Bool
ends_in_slash [] = false
ends_in_slash (b ∷ []) = b == 92 || (b == 47)
ends_in_slash (b ∷ c ∷ s) = ends_in_slash (c ∷ s)

-- `strings.TrimRight(s, "\\")`
abbrev pub trim_right : List ℕ → List ℕ
trim_right [] = []
trim_right (b ∷ s) = let rest = trim_right s in if is_empty rest && (b == 92) then [] else b ∷ rest

abbrev pub below_volume : List ℕ → List ℕ → List ℕ
below_volume volume name = volume ++ 92 ∷ name

module _ (host : Host) where
  unfoldable pub join_overlay_path : List ℕ → List ℕ → List ℕ
  join_overlay_path parent_path name =
      let volume = host.volume_name parent_path in
      if is_empty parent_path
      then name
      else if ends_in_slash parent_path
      then parent_path ++ name
      else if not (is_empty volume) && host.equal_fold parent_path volume
      then parent_path ++ 92 ∷ name
      else host.join parent_path name

  module _ (base : Base) where
    -- The names from a record up, as long as `depth` lets them go; those seen are not seen again.
    unfoldable pub path_parts : ℕ → List ℕ → ℕ → List (List ℕ)
    path_parts zero seen cur = []
    path_parts (suc depth) seen cur = elim (leb (record_count base) cur || member cur seen) [
      | true ↦ []
      | false ↦
          let rec = compact_record base cur in
          let up : List (List ℕ) = elim rec.parent [
            | negsuc k ↦ []
            | pos parent ↦ path_parts depth (cur ∷ seen) parent
          ] in
          if same_text rec.name (46 ∷ []) then up else rec.name ∷ up
    ]

    -- The parts from the last on are put behind the path, the last of several only if it is not the
    -- root's name.
    abbrev pub append_parts : List ℕ → List (List ℕ) → List ℕ
    append_parts path [] = path
    append_parts path (part ∷ parts) =
        let above = append_parts path parts in if is_empty above then part else above ++ 92 ∷ part

    abbrev pub path_from : List ℕ → List ℕ → List (List ℕ) → List ℕ
    path_from root root_name [] = root
    path_from root root_name (part ∷ []) = append_parts root (part ∷ [])
    path_from root root_name (part ∷ last ∷ []) =
        if not (is_empty root) && not (is_empty root_name) && same_text last root_name
        then append_parts root (part ∷ [])
        else append_parts root (part ∷ last ∷ [])
    path_from root root_name (part ∷ next ∷ last ∷ parts) =
        let above = path_from root root_name (next ∷ last ∷ parts) in
        if is_empty above then part else above ++ 92 ∷ part

    unfoldable pub reconstruct_compact_path : ℕ → List ℕ
    reconstruct_compact_path i = elim (leb (record_count base) i) [
      | true ↦ []
      | false ↦ elim host.roots [
        | [] ↦ path_from host.index_volume [] (path_parts 1024 [] i)
        | first ∷ roots ↦
            let root = trim_right first in
            path_from root (host.base_name root) (path_parts 1024 [] i)
      ]
    ]

    -- `if name == ""`
    abbrev pub path_name : List ℕ → List ℕ
    path_name [] = 46 ∷ []
    path_name (b ∷ name) = b ∷ name

    -- The path of a record at the top of the volume.
    abbrev pub top_path : List ℕ → List ℕ
    top_path name =
        if is_empty host.volume
        then name
        else if same_text name (46 ∷ [])
        then below_volume host.volume []
        else below_volume host.volume name

    -- The path of a record whose parent has no record in the overlay.
    abbrev pub base_parent_path : ℕ → List ℕ → List ℕ
    base_parent_path parent_frn name =
        let alone = if is_empty host.volume then name else below_volume host.volume name in
        elim (id_for_frn base parent_frn) [
          | none ↦ alone
          | some id ↦
              let parent_path = reconstruct_compact_path id in
              if is_empty parent_path then alone else join_overlay_path parent_path name
        ]

    -- The path below the parent's; there is none where the parent has none.
    abbrev pub child_path : List ℕ → Option (List ℕ) → Option (List ℕ)
    child_path name none = none
    child_path name (some parent_path) =
        some (if is_empty parent_path then [] else join_overlay_path parent_path name)

    unfoldable pub overlay_record_path :
        ℕ → List CompactRecord → (ℕ → Option ℕ) → List ℕ → ℕ → Option (List ℕ)
    overlay_record_path zero records latest seen slot = none
    overlay_record_path (suc fuel) records latest seen slot = elim (get_elem? records slot) [
      | none ↦ some []
      | some rec ↦ elim rec.deleted [
        | true ↦ some []
        | false ↦ elim (rec.parent_frn == 0 || (rec.parent_frn == rec.frn)) [
          | true ↦ some (top_path (path_name rec.name))
          | false ↦ elim (latest rec.parent_frn) [
            | none ↦ some (base_parent_path rec.parent_frn (path_name rec.name))
            | some parent_slot ↦ elim (member parent_slot seen) [
              | true ↦ some []
              | false ↦
                  child_path (path_name rec.name)
                    (overlay_record_path fuel records latest seen parent_slot)
            ]
          ]
        ]
      ]
    ]
