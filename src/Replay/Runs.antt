-- ===== src/Replay/Runs.antt =====
-- cmd/seekfs/service_replay.go: the replay on a small volume.
use seekfs.Common.{
  All, negsuc, false, none, arith, ℕ, pos, ◌≡◌, ◌<◌, ◌⊎◌, ◌↔◌, refl, sym, ◌∙◌, ◌+◌, ◌^◌, ◌==◌,
  if◌then◌else◌, some, List, [], ◌∷◌, ◌++◌, true,
}
use seekfs.Packed.Bits.{test_bit}
use seekfs.Replay.BaseIds.{member, OverlayBaseIdSet, empty, contains, empty-IsValid}
use seekfs.Replay.Volume.{
  record_count, id_for_frn, compact_record, Volume, CompactRecord, no_record, Base, OverlaySegment,
  new_overlay_segment, lookup,
}
use seekfs.Replay.Cascade.{latest_from, latest_overlay_slots_by_frn, cascade_overlay_delete}
use seekfs.Wal.Batch.{UsnChange, WalBatch, done, and_then}
use seekfs.Wal.Frames.{rewrite_wal, read_wal_frames_after}
use seekfs.Wal.Rewrite.{FrameFits}
use seekfs.Replay.Owned.{filter_owned_replay_changes}
use seekfs.Replay.Filter.{outside, inside_after, behind, filter_owned_replay_changes_lem}
use seekfs.Replay.Log.{replay_frames-rewrite_wal}
use seekfs.Replay.Change.{changed_record, replay_frames, apply_usn_changes}
use seekfs.Replay.Entries.{IsConsistent}
use seekfs.Replay.Path.{
  Host, same_text, join_overlay_path, path_parts, reconstruct_compact_path, overlay_record_path,
}
use seekfs.Replay.Ranked.{falls, IsRanked}
use seekfs.Packed.Search.{search}
use seekfs.Replay.Apply.{IsBelow, furthest, apply_usn_changes_lem}
use seekfs.Replay.Sizes.{tombstone_base_subtree}
use seekfs.Replay.Marks.{ClosedBut, Below}
use seekfs.Replay.Subtree.{tombstone_base_subtree_lem}
use seekfs.Replay.Deleted.{DeletedIn}
use seekfs.Replay.Dead.{IsLost}
use seekfs.Replay.Lost.{cascade_overlay_delete-IsLost}

abbrev directory : ℕ → ℕ → CompactRecord
directory frn parent = record no_record { frn = frn; parent_frn = parent; mode = 2 ^ 31 + 16 }

abbrev file_named : ℕ → ℕ → List ℕ → CompactRecord
file_named frn parent name = record no_record { frn = frn; parent_frn = parent; name = name }

abbrev file : ℕ → ℕ → CompactRecord
file frn parent = record no_record { frn = frn; parent_frn = parent; size = pos 7 }

-- The root 5 and a directory 100 in it.
abbrev small_base : Base
small_base = record {
  owned_dir_frns = 900 ∷ [];
  frn_to_id = [];
  frns = 5 ∷ 100 ∷ [];
  frn_record_ids = 0 ∷ 1 ∷ [];
  records = directory 5 5 ∷ directory 100 5 ∷ [];
  children = λ frn. [];
  child_offsets = 0 ∷ 2 ∷ 2 ∷ [];
  child_ids = 0 ∷ 1 ∷ [];
  subtree_order = [];
  subtree_start = [];
  subtree_end = [];
  subtree_bytes = 7 ∷ 0 ∷ [];
}

-- A directory 301 with a file 302, and a file 303 in the root; 301 is deleted.
abbrev small_overlay : OverlaySegment
small_overlay = record new_overlay_segment {
  records =
      directory 301 5
      ∷ file 302 301
      ∷ file 303 5
      ∷ record no_record { frn = 301; parent_frn = 5; deleted = true }
      ∷ [];
  by_frn = λ frn. lookup frn ((302, 1) ∷ (303, 2) ∷ (301, 3) ∷ []);
}

-- The file 302 is in the directory 301, which is deleted.
cascade_overlay_delete-IsLost_example :
    (after : OverlaySegment) × (cascade_overlay_delete small_base small_overlay 301 ≡ some after)
    × ((more : List CompactRecord) × (after.records ≡ small_overlay.records ++ more))
    × ((IsLost small_base small_overlay 301 302 (file 302 301) × DeletedIn after 302)
        ⊎ (¬ IsLost small_base small_overlay 301 302 (file 302 301)
            × (after.by_frn 302 ≡ small_overlay.by_frn 302)))
cascade_overlay_delete-IsLost_example =
    cascade_overlay_delete-IsLost small_base small_overlay 301 302 (file 302 301) refl refl

small_base_root : 0 < record_count small_base
unfolding record_count
small_base_root = omega arith

empty_closed : ClosedBut small_base [] empty
unfolding ClosedBut
empty_closed i k m l b = let e : false ≡ true = sym (empty-IsValid.listed i) ∙ m in cc

-- The volume's children alone give what is below the directory 5; nothing is marked.
tombstone_base_subtree_lem_example :
    (after : OverlayBaseIdSet) × (tombstone_base_subtree small_base empty 0 ≡ some after)
    × ClosedBut small_base [] after
    × ((k : ℕ) → (contains after k ≡ true) ↔ ((contains empty k ≡ true) ⊎ Below small_base 0 k))
tombstone_base_subtree_lem_example =
    tombstone_base_subtree_lem small_base empty 0 small_base_root refl empty_closed

-- A checkpoint of 10 and nothing in the overlay.
abbrev small_volume : Volume
small_volume = record {
  checkpoint = pos 10;
  index_checkpoint = pos 10;
  owned_dynamic_dir_frns = [];
  overlay = new_overlay_segment;
  dir_size_delta = λ id. pos 0;
  compact_attrs = false;
  dirty = false;
}

-- A file is made in the directory 100, which is then deleted.
abbrev small_changes : List UsnChange
small_changes =
    record { frn = 300; parent_frn = 100; usn = pos 42; reason = 256; attr = 32; name = b'x' ∷ [] }
    ∷ record { frn = 100; parent_frn = 5; usn = pos 41; reason = 512; attr = 16; name = [] }
    ∷ []

new-IsConsistent : IsConsistent new_overlay_segment
unfolding IsConsistent new_overlay_segment latest_overlay_slots_by_frn latest_from
new-IsConsistent f = refl

-- The volume is `C:`, and every file has 7 bytes.
abbrev small_host : Host
small_host = record {
  volume = b'C' ∷ 58 ∷ [];
  index_volume = b'C' ∷ 58 ∷ [];
  roots = (b'C' ∷ 58 ∷ 92 ∷ []) ∷ [];
  base_name = λ path. 92 ∷ [];
  volume_name = λ path. b'C' ∷ 58 ∷ [];
  equal_fold = λ path volume. same_text path volume;
  join = λ path name. path ++ 92 ∷ name;
  stat = λ slot path. some (pos 7, pos 1);
}

-- The depth of the directories and of the file.
abbrev small_rank : ℕ → ℕ
small_rank f = if f == 300 then 2 else if f == 100 then 1 else 0

new-IsRanked : IsRanked small_rank new_overlay_segment.records
unfolding IsRanked new_overlay_segment
new-IsRanked = tt

small-IsBelow : All (IsBelow small_base small_rank 3) small_changes
unfolding falls changed_record id_for_frn compact_record search
small-IsBelow = (
  record { bound = omega arith; falling = refl },
  (record { bound = omega arith; falling = refl }, tt),
)

-- The index with names: the root and its directory `d`.
abbrev named_base : Base
named_base = record small_base {
  records =
      record (directory 5 5) { name = b'.' ∷ []; parent = negsuc 0 }
      ∷ record (directory 100 5) { name = b'd' ∷ []; parent = pos 0 }
      ∷ [];
}

-- The path of the file 300, in the directory 100 of the index, is `C:\d\x`.
path_test :
    overlay_record_path small_host named_base 3
      (file_named 300 100 (b'x' ∷ []) ∷ [])
      (λ f. none)
      []
      0
    ≡ some (b'C' ∷ 58 ∷ 92 ∷ b'd' ∷ 92 ∷ b'x' ∷ [])
unfolding overlay_record_path reconstruct_compact_path path_parts join_overlay_path id_for_frn
    compact_record record_count search
path_test = refl

apply_usn_changes_lem_example :
    (after : Volume) × (apply_usn_changes small_base small_host 3 small_volume small_changes
      ≡ some after)
    × IsConsistent after.overlay
    × IsRanked small_rank after.overlay.records
    × (after.checkpoint ≡ furthest (pos 10) small_changes)
    × (after.index_checkpoint ≡ after.checkpoint)
apply_usn_changes_lem_example =
    apply_usn_changes_lem small_base small_host small_rank 3 small_volume small_changes
      new-IsConsistent new-IsRanked small-IsBelow

-- A scratch directory is made in the directory 900 of the program, and a file in it; a third change is
-- elsewhere.
abbrev scratch_changes : List UsnChange
scratch_changes =
    record { frn = 950; parent_frn = 900; usn = pos 20; reason = 256; attr = 16; name = b's' ∷ [] }
    ∷ record {
      frn = 951;
      parent_frn = 950;
      usn = pos 21;
      reason = 256;
      attr = 32;
      name = b't' ∷ [];
    }
    ∷ record {
      frn = 300;
      parent_frn = 100;
      usn = pos 22;
      reason = 256;
      attr = 32;
      name = b'x' ∷ [];
    }
    ∷ []

-- The file in the scratch directory is taken out too.
outside_test :
    outside small_base [] [] scratch_changes
    ≡ record {
      frn = 300;
      parent_frn = 100;
      usn = pos 22;
      reason = 256;
      attr = 32;
      name = b'x' ∷ [];
    }
      ∷ []
unfolding test_bit
outside_test = refl

filter_owned_replay_changes_lem_example :
    ((filter_owned_replay_changes small_base [] scratch_changes).0
      ≡ outside small_base [] [] scratch_changes)
    × ((f : ℕ)
        → member f (filter_owned_replay_changes small_base [] scratch_changes).1
          ≡ inside_after small_base [] (behind small_base [] [] scratch_changes) f)
filter_owned_replay_changes_lem_example =
    filter_owned_replay_changes_lem small_base [] scratch_changes

-- Two frames; the volume is at 10.
abbrev old_batch : WalBatch
old_batch = record { next_usn = pos 10; changes = [] }

abbrev new_batch : WalBatch
new_batch = record {
  next_usn = pos 43;
  changes =
      record {
        frn = 300;
        parent_frn = 100;
        usn = pos 42;
        reason = 256;
        attr = 32;
        name = b'x' ∷ [];
      }
      ∷ [];
}

old-fits : FrameFits old_batch
old-fits = record {
  fields = record { next_usn = omega arith; changes = tt; count = omega arith };
  size = omega arith;
}

new-fits : FrameFits new_batch
new-fits = record {
  fields = record {
    next_usn = omega arith;
    changes = (
      record {
        frn = omega arith;
        parent_frn = omega arith;
        usn = omega arith;
        reason = omega arith;
        attr = omega arith;
        name = omega arith;
      },
      tt,
    );
    count = omega arith;
  };
  size = omega arith;
}

replay_frames-rewrite_wal_example :
    and_then (rewrite_wal (λ bytes. 7) (old_batch ∷ new_batch ∷ [])) (λ file. done (
      replay_frames small_base small_host 3 small_volume
        (read_wal_frames_after (λ bytes. 7) file (pos 10)).0))
    ≡ done (replay_frames small_base small_host 3 small_volume (old_batch ∷ new_batch ∷ []))
replay_frames-rewrite_wal_example =
    replay_frames-rewrite_wal small_base small_host 3 (λ bytes. 7) small_volume
      (old_batch ∷ new_batch ∷ []) (λ bytes. omega arith) (old-fits, (new-fits, tt))

-- The small overlay, with its own map; two of its records are in the new base.
abbrev full_overlay : OverlaySegment
unfolding latest_overlay_slots_by_frn
full_overlay = record small_overlay {
  by_frn = λ f. lookup f (latest_overlay_slots_by_frn small_overlay.records);
  watermark = 4;
}
