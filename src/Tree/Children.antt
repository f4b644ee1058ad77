-- ===== src/Tree/Children.antt =====
-- cmd/seekfs/service_state.go: `buildCompactChildren`, which sorts the records by their parents with counts.
-- What `serviceSubtreeIntervalsEnabled` says is an argument.
use seekfs.Common.{
  ℕ, zero, suc, pos, negsuc, ◌+◌, ◌-◌, ◌^◌, ◌%◌, Bool, ◌||◌, Option, none, some, List, [], ◌∷◌,
  ◌++◌, length, get_or, set, take, replicate, leb, ◌==◌, if◌then◌else◌,
}
use seekfs.Replay.Volume.{CompactRecord, no_record, Base, record_count}
use seekfs.Tree.Ranges.{build_subtree_ranges}

module _ (records : List CompactRecord) where
  -- None where `parent < 0 || parent >= recordCount || parent == id`.
  unfoldable pub parent_of : ℕ → Option ℕ
  parent_of id = elim (get_or records id no_record).parent [
    | pos p ↦ if leb (length records) p || p == id then none else some p
    | negsuc k ↦ none
  ]

  -- The first pass: the counts, the roots and the total.
  unfoldable pub count_loop : ℕ → ℕ → List ℕ → List ℕ → ℕ → List ℕ × List ℕ × ℕ
  count_loop zero id counts roots total = (counts, roots, total)
  count_loop (suc rounds) id counts roots total =
      let kept = if (get_or records id no_record).deleted then roots else roots ++ (id ∷ []) in
      elim (parent_of id) [
        | none ↦ count_loop rounds (suc id) counts kept total
        | some p ↦
            count_loop rounds (suc id) (set counts (suc p) ((get_or counts (suc p) 0 + 1) % 2 ^ 32))
              roots (suc total)
      ]

  -- The second pass: each record at the next place of its parent.
  unfoldable pub fill_loop : ℕ → ℕ → List ℕ → List ℕ → List ℕ
  fill_loop zero id next child_ids = child_ids
  fill_loop (suc rounds) id next child_ids = elim (parent_of id) [
    | none ↦ fill_loop rounds (suc id) next child_ids
    | some p ↦
        let place = get_or next p 0 in
        fill_loop rounds (suc id) (set next p ((place + 1) % 2 ^ 32))
          (set child_ids place (id % 2 ^ 32))
  ]

-- `counts[i] += counts[i-1]`
unfoldable pub sum_loop : ℕ → ℕ → List ℕ → List ℕ
sum_loop zero i counts = counts
sum_loop (suc rounds) i counts =
    sum_loop rounds (suc i) (set counts i ((get_or counts i 0 + get_or counts (i - 1) 0) % 2 ^ 32))

-- The children and the roots. Where no record has a parent, what was there of children and ranges stays.
unfoldable pub build_compact_children : Bool → Base → Base × List ℕ
build_compact_children intervals base =
    let n = record_count base in
    let (counts, roots, total) = count_loop base.records n 0 (replicate (suc n) 0) [] 0 in
    let offsets = sum_loop n 1 counts in
    let children : Base = record base {
      child_offsets = offsets;
      child_ids = fill_loop base.records n 0 (take n offsets) (replicate total 0);
    } in
    let cleared : Base = record children {
      subtree_order = [];
      subtree_start = [];
      subtree_end = [];
    } in
    let built = if intervals then build_subtree_ranges children roots else cleared in
    if total == 0 then (base, roots) else (built, roots)
