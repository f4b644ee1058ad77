-- ===== src/Tree/Runs.antt =====
-- cmd/seekfs/index_format.go: a directory with a directory in it, and a file in that.
use seekfs.Common.{
  ℕ, zero, suc, pos, negsuc, ◌^◌, ◌<◌, ◌≡◌, ◌↔◌, refl, Bool-cases, true, false, inl, inr, some, [],
  ◌∷◌, get_or, arith,
}
use seekfs.Replay.BaseIds.{member, OverlayBaseIdSet, empty, contains}
use seekfs.Packed.Bits.{bit_at}
use seekfs.Replay.Volume.{Base, no_record, record_count, child_ids_for_record}
use seekfs.Replay.Marks.{Below, itself, child, ClosedBut}
use seekfs.Replay.Sizes.{has_subtree, tombstone_base_subtree}
use seekfs.Tree.Ranges.{build_subtree_ranges, walk_each, walk_rest, walk, enter, leave}
use seekfs.Tree.Walked.{part}
use seekfs.Tree.Forest.{IsForest}
use seekfs.Tree.Children.{parent_of, count_loop, sum_loop, fill_loop, build_compact_children}
use seekfs.Tree.Filled.{kids}
use seekfs.Tree.Built.{tops}
use seekfs.Tree.Parents.{build_compact_children_lem}
use seekfs.Tree.Under.{Under, Rooted, top, higher}
use seekfs.Tree.Whole.{build_compact_children_ranges}
use seekfs.Tree.Marked.{tombstone_base_subtree-build_subtree_ranges}

abbrev chain : Base
chain = record {
  owned_dir_frns = [];
  frn_to_id = [];
  frns = [];
  frn_record_ids = [];
  records = no_record ∷ no_record ∷ no_record ∷ [];
  children = λ frn. [];
  child_offsets = 0 ∷ 1 ∷ 2 ∷ 2 ∷ [];
  child_ids = 1 ∷ 2 ∷ [];
  subtree_order = [];
  subtree_start = [];
  subtree_end = [];
  subtree_bytes = [];
}

ranges_test : (build_subtree_ranges chain (0 ∷ [])).subtree_order ≡ 0 ∷ 1 ∷ 2 ∷ []
unfolding build_subtree_ranges walk_each walk_rest walk enter leave record_count
    child_ids_for_record
ranges_test = refl

ends_test : (build_subtree_ranges chain (0 ∷ [])).subtree_end ≡ 3 ∷ 3 ∷ 3 ∷ []
unfolding build_subtree_ranges walk_each walk_rest walk enter leave record_count
    child_ids_for_record
ends_test = refl

chain_count : record_count chain ≡ 3
unfolding record_count
chain_count = refl

one_down : (p k : ℕ) → p < 3 → member k (child_ids_for_record chain p) ≡ true → k ≡ suc p
unfolding child_ids_for_record record_count
one_down zero k b h = ground (arith, h)
one_down (suc zero) k b h = ground (arith, h)
one_down (suc (suc zero)) k b h = absurd (ground (arith, h))
one_down (suc (suc (suc p))) k b h = absurd (omega (arith, b))

Below-top : (k : ℕ) → k < 3 → Below chain 0 k
unfolding child_ids_for_record record_count
Below-top zero h = itself
Below-top (suc zero) h = child 0 1 itself refl (omega arith)
Below-top (suc (suc zero)) h = child 1 2 (child 0 1 itself refl (omega arith)) refl (omega arith)
Below-top (suc (suc (suc k))) h = absurd (omega (arith, h))

chain-IsForest : IsForest chain (0 ∷ [])
unfolding record_count
chain-IsForest = record {
  lone = λ p q k b c m l. omega (arith, one_down p k b m, one_down q k c l);
  tops = λ r p h b. elim (Bool-cases (member r (child_ids_for_record chain p))) [
    | inl y ↦ absurd (ground (arith, h, one_down p r b y))
    | inr n ↦ n
  ];
  reached = λ k b. (0, refl, omega arith, Below-top k b);
}

none_marked : ClosedBut chain [] empty
unfolding ClosedBut contains bit_at
none_marked id k h m b = absurd (ground (arith, h))

chain_small : record_count chain < 2 ^ 32
chain_small = rw chain_count (omega arith)

tombstone_base_subtree-build_subtree_ranges_example :
    (walked : OverlayBaseIdSet) × (ranged : OverlayBaseIdSet) × (tombstone_base_subtree chain empty
        1
      ≡ some walked)
    × (tombstone_base_subtree (build_subtree_ranges chain (0 ∷ [])) empty 1 ≡ some ranged)
    × ((k : ℕ) → contains walked k ≡ contains ranged k)
tombstone_base_subtree-build_subtree_ranges_example =
    tombstone_base_subtree-build_subtree_ranges chain (0 ∷ []) empty 1 chain_small refl
      chain-IsForest (rw chain_count (omega arith)) refl none_marked

abbrev with_parents : Base
with_parents = record chain {
  records =
      no_record
      ∷ no_record
      ∷ record no_record { parent = pos 1 }
      ∷ record no_record { parent = pos 1; deleted = true }
      ∷ record no_record { parent = negsuc 0 }
      ∷ [];
}

-- Record 0 is its own parent, so a root, as is the last; the deleted record is a child.
children_test : build_compact_children false with_parents ≡ (
  record with_parents { child_offsets = 0 ∷ 1 ∷ 3 ∷ 3 ∷ 3 ∷ 3 ∷ []; child_ids = 1 ∷ 2 ∷ 3 ∷ [] },
  0 ∷ 4 ∷ [],
)
unfolding build_compact_children count_loop sum_loop fill_loop parent_of record_count
children_test = refl

all-Rooted : (k : ℕ) → k < 5 → Rooted with_parents.records k
unfolding parent_of
all-Rooted zero h = top 0 refl refl (omega arith)
all-Rooted (suc zero) h = higher 0 1 (top 0 refl refl (omega arith)) refl (omega arith)
all-Rooted (suc (suc zero)) h =
    higher 1 2 (higher 0 1 (top 0 refl refl (omega arith)) refl (omega arith)) refl (omega arith)
all-Rooted (suc (suc (suc zero))) h =
    higher 1 3 (higher 0 1 (top 0 refl refl (omega arith)) refl (omega arith)) refl (omega arith)
all-Rooted (suc (suc (suc (suc zero)))) h = top 4 refl refl (omega arith)
all-Rooted (suc (suc (suc (suc (suc k))))) h = absurd (omega (arith, h))

two_in_one : parent_of with_parents.records 2 ≡ some 1
unfolding parent_of
two_in_one = refl

build_compact_children_lem_example :
    ((k : ℕ)
      → k < 5
      → child_ids_for_record (build_compact_children true with_parents).0 k
        ≡ kids with_parents.records k 5)
    × ((build_compact_children true with_parents).1 ≡ tops with_parents.records 5)
build_compact_children_lem_example =
    build_compact_children_lem true with_parents 2 1 (omega arith) (omega arith) two_in_one

build_compact_children_ranges_example :
    (let b = (build_compact_children true with_parents).0 in
      (has_subtree b 1 ≡ true)
      × ((x : ℕ)
          → (member x (part b.subtree_order (get_or b.subtree_start 1 0) (get_or b.subtree_end 1 0))
              ≡ true)
            ↔ Under with_parents.records 1 x))
build_compact_children_ranges_example =
    build_compact_children_ranges with_parents 2 1 (omega arith) (omega arith) two_in_one all-Rooted
      1 (omega arith)
