-- ===== src/Tree/Forest.antt =====
-- cmd/seekfs/index_format.go: `buildSubtreeRanges` over records whose children form trees below the roots.
use seekfs.Common.{
  ℕ, zero, suc, ◌+◌, ◌-◌, ◌^◌, ◌≤◌, ◌<◌, ◌≡◌, ◌↔◌, refl, true, false, List, [], length, get_or,
  get_or-replicate, length-replicate, replicate, ◌==◌, arith,
}
use seekfs.Replay.BaseIds.{member}
use seekfs.Replay.Volume.{Base, record_count, child_ids_for_record}
use seekfs.Replay.Marks.{Below, itself, child}
use seekfs.Replay.Sizes.{has_subtree}
use seekfs.Tree.Ranges.{Walk, walk_each, walk, walk_rest, build_subtree_ranges}
use seekfs.Tree.Walked.{part, unseen, is_seen, IsValid, UpClosed, IsDone, Walked, seen_after}
use seekfs.Tree.Visits.{BelowSome, walk_each-Walked, walk-Visits}

unseen-replicate : (m n : ℕ) → unseen m (replicate n false) ≡ m
unseen-replicate zero n = refl
unseen-replicate (suc m) n =
    let free : get_or (replicate n false) m false ≡ false = get_or-replicate n false m in
    ground (arith, free, unseen-replicate m n)

-- The children form trees: a record has one parent at most, a root none, and each record is below a root.
pub record IsForest (base : Base) (root_ids : List ℕ) : Type 0 where
  pub lone :
      (p q k : ℕ)
      → p < record_count base
      → q < record_count base
      → member k (child_ids_for_record base p) ≡ true
      → member k (child_ids_for_record base q) ≡ true
      → p ≡ q
  pub tops :
      (r p : ℕ)
      → member r root_ids ≡ true
      → p < record_count base
      → member r (child_ids_for_record base p) ≡ false
  pub reached : (k : ℕ) → k < record_count base → BelowSome base root_ids k

module _ (base : Base) (root_ids : List ℕ) (small : record_count base < 2 ^ 32)
    (forest : IsForest base root_ids) where
  abbrev n : ℕ
  n = record_count base

  abbrev empty : Walk
  empty = record {
    seen = replicate n false;
    order = [];
    start = replicate n (2 ^ 32 - 1);
    end = replicate n 0;
  }

  abbrev rooted : Walk
  rooted = walk_each (walk base (suc n)) root_ids empty

  empty_seen : (k : ℕ) → is_seen empty k ≡ false
  empty_seen k = get_or-replicate n false k

  empty-IsValid : IsValid base empty
  empty-IsValid = record {
    listed = empty_seen;
    inside = λ k h. absurd (ground (arith, empty_seen k, h));
    counted = omega (arith, unseen-replicate n n);
    seen_length = length-replicate n false;
    start_length = length-replicate n (2 ^ 32 - 1);
    end_length = length-replicate n 0;
  }

  from_roots :
      Walked base (BelowSome base root_ids) empty rooted
      × ((id : ℕ) → member id root_ids ≡ true → id < n → is_seen rooted id ≡ true)
  unfolding UpClosed
  from_roots =
      walk_each-Walked base (suc n) (walk base (suc n)) (walk-Visits base small forest.lone (suc n))
        root_ids empty empty-IsValid (λ p k b m s. absurd (ground (arith, empty_seen k, s)))
        (λ id p h b l m. absurd (ground (arith, forest.tops id p h l, m)))
        (omega (arith, unseen-replicate n n))

  is_new : (k : ℕ) → is_seen rooted k ≡ true → member k from_roots.0.new ≡ true
  is_new k s = ground (
    arith,
    s,
    seen_after base (BelowSome base root_ids) empty rooted empty-IsValid from_roots.0 k,
    empty_seen k,
  )

  Below-seen : (r k : ℕ) → is_seen rooted r ≡ true → Below base r k → is_seen rooted k ≡ true
  Below-seen r _ s itself = s
  Below-seen r _ s (child i k below m b) =
      from_roots.0.closed i k (is_new i (Below-seen r i s below)) m b

  all_seen : (k : ℕ) → k < n → is_seen rooted k ≡ true
  all_seen k b =
      let (r, m, l, below) = forest.reached k b in Below-seen r k (from_roots.1 r m l) below

  walk_rest_lem : (rounds id : ℕ) → id + rounds ≤ n → walk_rest base rounds id rooted ≡ rooted
  unfolding walk_rest
  walk_rest_lem zero id h = refl
  walk_rest_lem (suc rounds) id h =
      rw (all_seen id (omega (arith, h))) (walk_rest_lem rounds (suc id) (omega (arith, h)))

  ranged : Base
  ranged = record base {
    subtree_order = rooted.order;
    subtree_start = rooted.start;
    subtree_end = rooted.end;
  }

  build_subtree_ranges-ranged :
      (length base.child_offsets == 0) ≡ false → build_subtree_ranges base root_ids ≡ ranged
  unfolding build_subtree_ranges ranged
  build_subtree_ranges-ranged o = rw (o, walk_rest_lem n 0 (omega arith)) refl

  record-IsDone : (k : ℕ) → k < n → IsDone base rooted k
  record-IsDone k b = from_roots.0.done k (is_new k (all_seen k b))

  ranged-has_subtree : (k : ℕ) → k < n → has_subtree ranged k ≡ true
  unfolding ranged
  ranged-has_subtree k b =
      let d = record-IsDone k b in
      let v = from_roots.0.valid in
      ground (arith, b, d.starts, d.ends, v.start_length, v.end_length, v.counted, small)

-- For fewer than 2 ^ 32 records with offsets of children, which form trees below the roots, every record has
-- a range in the order that is built, and the range lists exactly what the children lead to from it.
pub build_subtree_ranges_lem :
    (base : Base) (root_ids : List ℕ)
    → record_count base < 2 ^ 32
    → (length base.child_offsets == 0) ≡ false
    → IsForest base root_ids
    → (let b = build_subtree_ranges base root_ids in
        (k : ℕ)
        → k < record_count base
        → (has_subtree b k ≡ true)
          × ((x : ℕ)
              → (member x
                    (part b.subtree_order (get_or b.subtree_start k 0) (get_or b.subtree_end k 0))
                  ≡ true)
                ↔ Below base k x))
unfolding ranged
build_subtree_ranges_lem base root_ids small o forest k l =
    rw (build_subtree_ranges-ranged base root_ids small forest o) (
      ranged-has_subtree base root_ids small forest k l,
      (record-IsDone base root_ids small forest k l).below,
    )
