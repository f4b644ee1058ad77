-- ===== src/Tree/Parents.antt =====
-- cmd/seekfs/service_state.go: the children and the roots that `buildCompactChildren` builds, and its ranges.
use seekfs.Common.{
  ℕ, suc, ◌+◌, ◌^◌, ◌<◌, ◌≡◌, refl, ap, ◌∙◌, Bool, Bool-cases, true, false, some, inl, inr, List,
  [], length, get_or, replicate, ltb, leb, ◌==◌, arith,
}
use seekfs.Replay.Volume.{Base, record_count, compact_record, mapped_children, child_ids_for_record}
use seekfs.Tree.Ranges.{build_subtree_ranges}
use seekfs.Tree.Children.{parent_of, build_compact_children}
use seekfs.Tree.Counts.{parent_below, parent_is, parent_is-some, kid_count, offset, offset_least}
use seekfs.Tree.Filled.{kids, kid_count_least}
use seekfs.Tree.Built.{
  tops, count_loop-tops, counted, counted_lem, offsets, offsets_lem, filled, filled_lem, part_kids,
}

module _ (base : Base) (small : length base.records < 2 ^ 32) where
  abbrev pub sorted : Base
  sorted = record base {
    child_offsets = offsets base.records small;
    child_ids = filled base.records small;
  }

pub child_ids-build_subtree_ranges :
    (base : Base) (root_ids : List ℕ) (k : ℕ)
    → child_ids_for_record (build_subtree_ranges base root_ids) k ≡ child_ids_for_record base k
unfolding build_subtree_ranges child_ids_for_record record_count mapped_children compact_record
child_ids-build_subtree_ranges base root_ids k =
    elim (Bool-cases (length base.child_offsets == 0)) [ inl y ↦ rw y refl | inr n ↦ rw n refl ]

module _ (base : Base) (small : length base.records < 2 ^ 32) where
  pub child_ids-sorted :
      (k : ℕ)
      → k < length base.records
      → child_ids_for_record (sorted base small) k ≡ kids base.records k (length base.records)
  unfolding child_ids_for_record
  child_ids-sorted k b =
      let n = length base.records in
      let sums = offsets_lem base.records small in
      let start = sums.sums k (omega (arith, b)) in
      let one : k + 1 ≡ suc k = omega arith in
      let end : get_or (offsets base.records small) (k + 1) 0 ≡ offset base.records n (suc k) =
        rw one (sums.sums (suc k) (omega (arith, b))) in
      let inside : ltb (k + 1) (length (offsets base.records small)) ≡ true =
        ground (arith, sums.counts_length, b) in
      let ordered : leb (offset base.records n k) (offset base.records n (suc k)) ≡ true =
        ground (arith, offset_least base.records n k (suc k) (omega arith)) in
      let bounded : leb (offset base.records n (suc k)) (length (filled base.records small))
          ≡ true =
        ground (
          arith,
          (filled_lem base.records small).1.child_length,
          offset_least base.records n (suc k) n (omega (arith, b)),
        ) in
      rw (start, end, inside, ordered, bounded) (part_kids base.records small k b)

  pub some_total :
      (id p : ℕ)
      → id < length base.records
      → parent_of base.records id ≡ some p
      → ((counted base.records small).2 == 0) ≡ false
  unfolding kid_count offset
  some_total id p b e =
      let n = length base.records in
      let own : parent_is base.records p id ≡ true =
        parent_is-some base.records id p e p ∙ ground arith in
      let one : kid_count base.records p (suc id) ≡ kid_count base.records p id + 1 =
        ground (arith, own) in
      ground (
        arith,
        (counted_lem base.records small).all,
        one,
        kid_count_least base.records p (suc id) n b,
        offset_least base.records n (suc p) n (parent_below base.records id p e),
      )

  pub roots_built : (counted base.records small).1 ≡ tops base.records (length base.records)
  roots_built =
      count_loop-tops base.records (length base.records) 0 (replicate (suc (length base.records)) 0)
        0
      ∙ ap (tops base.records) (omega arith)

child_ids-cleared :
    (base : Base) (k : ℕ)
    → child_ids_for_record
        (record base { subtree_order = []; subtree_start = []; subtree_end = [] })
        k
      ≡ child_ids_for_record base k
unfolding child_ids_for_record mapped_children record_count compact_record
child_ids-cleared base k = refl

-- For fewer than 2 ^ 32 records of which one has a parent, the children that are read from the offsets that
-- are built are, for each record, the records whose parent it is, in ascending order, with ranges or
-- without, and the roots are the records without a parent that are not deleted.
pub build_compact_children_lem :
    (intervals : Bool) (base : Base) (id p : ℕ)
    → length base.records < 2 ^ 32
    → id < length base.records
    → parent_of base.records id ≡ some p
    → ((k : ℕ)
        → k < length base.records
        → child_ids_for_record (build_compact_children intervals base).0 k
          ≡ kids base.records k (length base.records))
      × ((build_compact_children intervals base).1 ≡ tops base.records (length base.records))
unfolding build_compact_children record_count
build_compact_children_lem true base id p small b e = rw (some_total base small id p b e) (
  λ k l.
      child_ids-build_subtree_ranges (sorted base small) (counted base.records small).1 k
      ∙ child_ids-sorted base small k l,
  roots_built base small,
)
build_compact_children_lem false base id p small b e = rw (some_total base small id p b e) (
  λ k l. child_ids-cleared (sorted base small) k ∙ child_ids-sorted base small k l,
  roots_built base small,
)
