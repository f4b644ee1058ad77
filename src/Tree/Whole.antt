-- ===== src/Tree/Whole.antt =====
-- cmd/seekfs/service_state.go and index_format.go: `buildCompactChildren` with `buildSubtreeRanges`.
use seekfs.Common.{
  ℕ, ◌^◌, ◌<◌, ◌≡◌, ◌↔◌, refl, sym, subst, true, false, some, length, get_or, ◌==◌, arith,
}
use seekfs.Replay.BaseIds.{member}
use seekfs.Replay.Volume.{Base, record_count}
use seekfs.Replay.Sizes.{has_subtree}
use seekfs.Tree.Ranges.{build_subtree_ranges}
use seekfs.Tree.Children.{parent_of, build_compact_children}
use seekfs.Tree.Built.{tops, offsets_lem}
use seekfs.Tree.Parents.{some_total, roots_built}
use seekfs.Tree.Walked.{part}
use seekfs.Tree.Forest.{build_subtree_ranges_lem}
use seekfs.Tree.Under.{Under, Rooted, tree, tree-IsForest, tree_count, Under-Below, Below-Under}

ranges_built :
    (base : Base) (id p : ℕ) (small : length base.records < 2 ^ 32)
    → id < length base.records
    → parent_of base.records id ≡ some p
    → (build_compact_children true base).0
      ≡ build_subtree_ranges (tree base small) (tops base.records (length base.records))
unfolding build_compact_children record_count
ranges_built base id p small b e = rw (some_total base small id p b e, roots_built base small) refl

-- For fewer than 2 ^ 32 records, of which one has a parent and whose parents all lead to a record that has
-- none and is not deleted, every record has a range in the order that is built with the children, and the
-- range lists exactly the records whose parents lead to it, the record itself among them.
pub build_compact_children_ranges :
    (base : Base) (id p : ℕ)
    → length base.records < 2 ^ 32
    → id < length base.records
    → parent_of base.records id ≡ some p
    → ((k : ℕ) → k < length base.records → Rooted base.records k)
    → (let b = (build_compact_children true base).0 in
        (k : ℕ)
        → k < length base.records
        → (has_subtree b k ≡ true)
          × ((x : ℕ)
              → (member x
                    (part b.subtree_order (get_or b.subtree_start k 0) (get_or b.subtree_end k 0))
                  ≡ true)
                ↔ Under base.records k x))
build_compact_children_ranges base id p small b e rooted =
    let offsets : (length (tree base small).child_offsets == 0) ≡ false =
      ground (arith, (offsets_lem base.records small).counts_length) in
    let n_small = subst (λ m. m < 2 ^ 32) (sym (tree_count base small)) small in
    rw (ranges_built base id p small b e) (λ k l.
      let (has, below) =
        build_subtree_ranges_lem (tree base small) (tops base.records (length base.records)) n_small
          offsets (tree-IsForest base small rooted) k
          (subst (λ m. k < m) (sym (tree_count base small)) l) in
      (
        has,
        λ x. (
          λ h. (Under-Below base small k x l ((below x).0 h)).0,
          λ u. (below x).1 (Below-Under base small k x l u),
        ),
      ))
