-- ===== src/Replay/Fold.antt =====
-- cmd/seekfs/service_runtime.go: the overlay while a new base is built from it: `snapshotOverlayForFold`,
-- `carryOverlayDelta` and `overlayBaseIDSetDelta`. A copy of a list is the list.
use seekfs.Common.{
  ℕ, ◌-◌, ◌&&◌, Option, none, some, List, [], ◌∷◌, length, ltb, leb, if◌then◌else◌, take, drop,
}
use seekfs.Replay.BaseIds.{OverlayBaseIdSet, empty, add, contains}
use seekfs.Replay.Volume.{OverlaySegment, new_overlay_segment}

-- `if watermark > len(live.records)`
abbrev pub clamped_watermark : OverlaySegment → ℕ
clamped_watermark live =
    if ltb (length live.records) live.watermark then length live.records else live.watermark

-- An entry whose slot is below the watermark.
abbrev pub slot_below : ℕ → Option ℕ → Option ℕ
slot_below watermark none = none
slot_below watermark (some slot) = if ltb slot watermark then some slot else none

unfoldable pub snapshot_overlay_for_fold : OverlaySegment → OverlaySegment
snapshot_overlay_for_fold live =
    let records = take (clamped_watermark live) live.records in
    record {
      records = records;
      by_frn = λ frn. slot_below (clamped_watermark live) (live.by_frn frn);
      tombstone = live.tombstone;
      shadowed = live.shadowed;
      watermark = length records;
    }

-- `for _, id := range live.ids { if !snap.contains(id) { out.add(id) } }`
unfoldable pub delta_loop : OverlayBaseIdSet → List ℕ → OverlayBaseIdSet → OverlayBaseIdSet
delta_loop snap [] out = out
delta_loop snap (id ∷ ids) out = delta_loop snap ids (if contains snap id then out else add out id)

unfoldable pub overlay_base_id_set_delta : OverlayBaseIdSet → OverlayBaseIdSet → OverlayBaseIdSet
overlay_base_id_set_delta live snap = delta_loop snap live.ids empty

-- An entry whose slot is one of `[from, watermark)`, from `from` on.
abbrev pub slot_since : ℕ → ℕ → Option ℕ → Option ℕ
slot_since from watermark none = none
slot_since from watermark (some slot) =
    if leb from slot && ltb slot watermark then some (slot - from) else none

unfoldable pub carry_overlay_delta : OverlaySegment → ℕ → Option OverlaySegment → OverlaySegment
carry_overlay_delta live from fold_overlay =
    let watermark = clamped_watermark live in
    let records = take (watermark - from) (drop from live.records) in
    let carried : OverlaySegment = record {
      records = records;
      by_frn = λ frn. slot_since from watermark (live.by_frn frn);
      tombstone = elim fold_overlay [
        | none ↦ live.tombstone
        | some fold ↦ overlay_base_id_set_delta live.tombstone fold.tombstone
      ];
      shadowed = elim fold_overlay [
        | none ↦ live.shadowed
        | some fold ↦ overlay_base_id_set_delta live.shadowed fold.shadowed
      ];
      watermark = length records;
    } in
    if ltb from watermark then carried else new_overlay_segment
