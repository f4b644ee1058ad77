-- ===== src/Tree/Marked.antt =====
-- cmd/seekfs/service_replay.go: `tombstoneBaseSubtree` with the ranges that `buildSubtreeRanges` made, against
-- the walk over the children that it makes without them.
use seekfs.Common.{
  ℕ, ◌^◌, ◌<◌, ◌≡◌, ◌↔◌, refl, sym, Bool, Bool-cases, true, false, ◌||◌, inl, inr, some, List, [],
  ◌∷◌, length, get_or, leb, ◌==◌, arith,
}
use seekfs.Replay.BaseIds.{member, OverlayBaseIdSet, add, add_all, contains, contains-add}
use seekfs.Replay.Volume.{Base, record_count}
use seekfs.Replay.Marks.{ClosedBut}
use seekfs.Replay.Subtree.{tombstone_base_subtree_lem}
use seekfs.Replay.Sizes.{has_subtree, tombstone_base_subtree}
use seekfs.Tree.Ranges.{build_subtree_ranges}
use seekfs.Tree.Walked.{part}
use seekfs.Tree.Forest.{IsForest, build_subtree_ranges_lem}

contains-marks :
    (set : OverlayBaseIdSet) (ids : List ℕ) (k : ℕ)
    → contains (add_all set ids) k ≡ (contains set k || member k ids)
unfolding add_all
contains-marks set [] k = ground arith
contains-marks set (id ∷ ids) k =
    ground (arith, contains-marks (add set id) ids k, contains-add set id k)

record_count-build_subtree_ranges :
    (base : Base) (root_ids : List ℕ)
    → record_count (build_subtree_ranges base root_ids) ≡ record_count base
unfolding build_subtree_ranges record_count
record_count-build_subtree_ranges base root_ids =
    elim (Bool-cases (length base.child_offsets == 0)) [ inl y ↦ rw y refl | inr n ↦ rw n refl ]

same_truth : (b c : Bool) → (b ≡ true) ↔ (c ≡ true) → b ≡ c
same_truth true c h = sym (h.0 refl)
same_truth false true h = h.1 refl
same_truth false false h = refl

-- For fewer than 2 ^ 32 records with offsets of children, which form trees below the roots, a record of
-- which no range is loaded, and a set that has with each record its children, the marking of the subtree
-- ends with the ranges that are built and without, and marks the same records.
pub tombstone_base_subtree-build_subtree_ranges :
    (base : Base) (root_ids : List ℕ) (set : OverlayBaseIdSet) (root : ℕ)
    → record_count base < 2 ^ 32
    → (length base.child_offsets == 0) ≡ false
    → IsForest base root_ids
    → root < record_count base
    → has_subtree base root ≡ false
    → ClosedBut base [] set
    → (walked : OverlayBaseIdSet) × (ranged : OverlayBaseIdSet) × (tombstone_base_subtree base set
          root
        ≡ some walked)
      × (tombstone_base_subtree (build_subtree_ranges base root_ids) set root ≡ some ranged)
      × ((k : ℕ) → contains walked k ≡ contains ranged k)
unfolding tombstone_base_subtree
tombstone_base_subtree-build_subtree_ranges base root_ids set root small o forest l none_loaded c =
    let b = build_subtree_ranges base root_ids in
    let (has, below) = build_subtree_ranges_lem base root_ids small o forest root l in
    let ids = part b.subtree_order (get_or b.subtree_start root 0) (get_or b.subtree_end root 0) in
    let (walked, e, closed, marks) = tombstone_base_subtree_lem base set root l none_loaded c in
    let inside : leb (record_count b) root ≡ false =
      ground (arith, record_count-build_subtree_ranges base root_ids, l) in
    (
      walked,
      add_all set ids,
      e,
      rw (tombstone_base_subtree, inside, has) refl,
      λ k. same_truth (contains walked k) (contains (add_all set ids) k) (
        λ h. elim ((marks k).0 h) [
          | inl y ↦ ground (arith, contains-marks set ids k, y)
          | inr y ↦ ground (arith, contains-marks set ids k, (below k).1 y)
        ],
        λ h. elim (Bool-cases (contains set k)) [
          | inl y ↦ (marks k).1 (inl y)
          | inr n ↦ (marks k).1 (inr ((below k).0 (ground (arith, contains-marks set ids k, h, n))))
        ],
      ),
    )
