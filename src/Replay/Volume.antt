-- ===== src/Replay/Volume.antt =====
-- cmd/seekfs/service_protocol.go, types.go and service_runtime.go: the state of a volume that the replay
-- of journal changes reads and writes. A map is a function, and a record read from the index is one of
-- the list `records`.
use seekfs.Common.{
  ℕ, ℤ, pos, ◌+◌, ◌-◌, ◌^◌, ◌%◌, Bool, false, ◌||◌, ◌&&◌, Option, none, some, List, [], ◌∷◌, length,
  get_or, ltb, leb, ◌==◌, if◌then◌else◌, take, drop,
}
use seekfs.Packed.Bits.{test_bit, set_bit}
use seekfs.Packed.Search.{search}
use seekfs.Spool.Words.{to_uint64, to_int64}
use seekfs.Replay.BaseIds.{OverlayBaseIdSet, empty}

pub record CompactRecord : Type 0 where
  pub frn : ℕ
  pub parent_frn : ℕ
  pub parent : ℤ
  pub name : List ℕ
  pub mode : ℕ
  pub size : ℤ
  pub mod_unix : ℤ
  pub deleted : Bool

abbrev pub no_record : CompactRecord
no_record = record {
  frn = 0;
  parent_frn = 0;
  parent = pos 0;
  name = [];
  mode = 0;
  size = pos 0;
  mod_unix = pos 0;
  deleted = false;
}

-- What the volume loaded: nothing of it changes in a replay.
pub record Base : Type 0 where
  pub owned_dir_frns : List ℕ
  pub frn_to_id : List (ℕ × ℕ)
  pub frns : List ℕ
  pub frn_record_ids : List ℕ
  pub records : List CompactRecord
  pub children : ℕ → List ℕ
  pub child_offsets : List ℕ
  pub child_ids : List ℕ
  pub subtree_order : List ℕ
  pub subtree_start : List ℕ
  pub subtree_end : List ℕ
  pub subtree_bytes : List ℕ

pub record OverlaySegment : Type 0 where
  pub records : List CompactRecord
  pub by_frn : ℕ → Option ℕ
  pub tombstone : OverlayBaseIdSet
  pub shadowed : OverlayBaseIdSet
  pub watermark : ℕ

unfoldable pub new_overlay_segment : OverlaySegment
new_overlay_segment = record {
  records = [];
  by_frn = λ frn. none;
  tombstone = empty;
  shadowed = empty;
  watermark = 0;
}

pub record Volume : Type 0 where
  pub checkpoint : ℤ
  pub index_checkpoint : ℤ
  pub owned_dynamic_dir_frns : List ℕ
  pub overlay : OverlaySegment
  pub dir_size_delta : ℕ → ℤ
  pub compact_attrs : Bool
  pub dirty : Bool

-- `v, ok := m[k]` on a map that is listed.
abbrev pub lookup : {A : Type 0} → ℕ → List (ℕ × A) → Option A
lookup k [] = none
lookup k (e ∷ m) = if k == e.0 then some e.1 else lookup k m

-- `m[k] = v`
abbrev pub put : {A : Type 0} → (ℕ → A) → ℕ → A → ℕ → A
put m k v = λ x. if x == k then v else m x

-- The tests of a change's reasons: bits 8, 9, 12 and 13.
abbrev pub is_create : ℕ → Bool
is_create reason = test_bit reason 8

abbrev pub is_delete : ℕ → Bool
is_delete reason = test_bit reason 9

abbrev pub is_rename_old : ℕ → Bool
is_rename_old reason = test_bit reason 12

abbrev pub is_rename_new : ℕ → Bool
is_rename_new reason = test_bit reason 13

-- `usnReasonNeedsInfoRefresh`
unfoldable pub needs_info_refresh : ℕ → Bool
needs_info_refresh reason =
    test_bit reason 0
    || test_bit reason 1
    || test_bit reason 2
    || test_bit reason 15
    || test_bit reason 31
    || is_create reason
    || is_rename_new reason
    || is_rename_old reason

-- `attr & fileAttributeDir != 0`
abbrev pub is_dir_attr : ℕ → Bool
is_dir_attr attr = test_bit attr 4

unfoldable pub mode_from_attrs : ℕ → ℕ
mode_from_attrs attr = if is_dir_attr attr then set_bit attr 31 else attr

-- `rec.Mode & uint32(os.ModeDir) != 0`
abbrev pub is_dir : CompactRecord → Bool
is_dir rec = test_bit rec.mode 31

-- `+` and `-` of int64
abbrev pub int_add : ℤ → ℤ → ℤ
int_add x y = to_int64 ((to_uint64 x + to_uint64 y) % 2 ^ 64)

abbrev pub int_negate : ℤ → ℤ
int_negate x = to_int64 ((2 ^ 64 - to_uint64 x) % 2 ^ 64)

module _ (base : Base) where
  unfoldable pub compact_record : ℕ → CompactRecord
  compact_record id = get_or base.records id no_record

  unfoldable pub record_count : ℕ
  record_count = length base.records

  -- The binary search of `idForFRN` in the sorted references.
  abbrev pub search_frns : ℕ → Option ℕ
  search_frns frn =
      let i = search (length base.frns) (λ i. leb frn (get_or base.frns i 0)) in
      if ltb i (length base.frns)
        && ltb i (length base.frn_record_ids)
        && (get_or base.frns i 0 == frn)
      then some (get_or base.frn_record_ids i 0)
      else none

  unfoldable pub id_for_frn : ℕ → Option ℕ
  id_for_frn frn =
      if frn == 0
      then none
      else elim (lookup frn base.frn_to_id) [ some id ↦ some id | none ↦ search_frns frn ]

  -- `childIDs[start:end]`
  abbrev pub slice : List ℕ → ℕ → ℕ → List ℕ
  slice xs start end = take (end - start) (drop start xs)

  -- The children where the offsets do not give them.
  unfoldable pub mapped_children : ℕ → List ℕ
  unfolding compact_record record_count
  mapped_children id = if leb record_count id then [] else base.children (compact_record id).frn

  unfoldable pub child_ids_for_record : ℕ → List ℕ
  child_ids_for_record id =
      let start = get_or base.child_offsets id 0 in
      let end = get_or base.child_offsets (id + 1) 0 in
      if ltb (id + 1) (length base.child_offsets)
        && (leb start end && leb end (length base.child_ids))
      then slice base.child_ids start end
      else mapped_children id
