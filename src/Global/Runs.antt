-- ===== src/Global/Runs.antt =====
-- Concrete runs of the iterators, and the theorems at concrete inputs.
use seekfs.Common.{ℕ, ◌≡◌, ◌≢◌, refl, Bool, none, some, List, [], ◌∷◌, head?, tail, filter, ◌==◌}
use seekfs.Global.Id.{GlobalRecordId, before, compare_global_record_id, drop_before, Ascending}
use seekfs.Global.Sets.{common, minus}
use seekfs.Global.Optional.{optional_holds}
use seekfs.Global.Filter.{filter_iterator}
use seekfs.Global.Slice.{
  GlobalIdSlice, new_global_id_slice, slice_iterator, slice_forward, slice-Seeks,
  new_global_id_slice_holds,
}
use seekfs.Global.Buffered.{Buffered-next}
use seekfs.Global.Intersection.Defs.{
  intersection_iterator, new_global_intersection_iterator, running, seek_ge,
}
use seekfs.Global.Exclusion.Defs.{exclusion_iterator, new_global_exclusion_iterator}
use seekfs.Global.Merge.Defs.{merge_iterator, new_global_merge_iterator}
use seekfs.Global.Collect.Defs.{
  collect_global_iterator, intersect_global_iterators, union_global_iterators,
}
use seekfs.Global.Collect.Laws.{limited, intersect_lem}
use seekfs.Global.Collect.Union.{union_of, union_of-IsUnion, union_lem}
use seekfs.Global.Operators.{
  collect-merge, seek_ge-merge, collect-filter, collect-intersection, collect-exclusion,
  seek_ge_skips,
}

abbrev id : ℕ → ℕ → GlobalRecordId
id v n = record { volume = v; local = n }

abbrev low : List GlobalRecordId
low = id 0 1 ∷ id 0 5 ∷ []

abbrev high : List GlobalRecordId
high = id 0 5 ∷ id 1 0 ∷ []

abbrev slice : List GlobalRecordId → GlobalIdSlice
slice ids = new_global_id_slice ids

low-Ascending : Ascending low
unfolding before compare_global_record_id
low-Ascending = ((refl, tt), (tt, tt))

high-Ascending : Ascending high
unfolding before compare_global_record_id
high-Ascending = ((refl, tt), (tt, tt))

low_holds : slice_forward.Holds (slice low) low
low_holds = new_global_id_slice_holds low low-Ascending

high_holds : slice_forward.Holds (slice high) high
high_holds = new_global_id_slice_holds high high-Ascending

collect-merge_example :
    collect_global_iterator
      (merge_iterator slice_iterator)
      (some (
        new_global_merge_iterator slice_iterator
          (some (slice low) ∷ none ∷ some (slice high) ∷ [])))
      0
    ≡ limited 0 (union_of low high)
collect-merge_example =
    collect-merge slice_iterator slice_forward (some (slice low) ∷ none ∷ some (slice high) ∷ [])
      (low ∷ high ∷ []) (union_of low high) 0 (low_holds, (high_holds, tt))
      (union_of-IsUnion low high low-Ascending high-Ascending)

seek_ge-merge_example :
    ((merge_iterator slice_iterator).seek_ge
        (id 0 5)
        (new_global_merge_iterator slice_iterator (some (slice low) ∷ some (slice high) ∷ []))).1
      ≡ head? (drop_before (id 0 5) (union_of low high))
    × (collect_global_iterator
          (merge_iterator slice_iterator)
          (some
            ((merge_iterator slice_iterator).seek_ge (id 0 5) (
              new_global_merge_iterator slice_iterator
                (some (slice low) ∷ some (slice high) ∷ []))).0)
          0
        ≡ limited 0 (tail (drop_before (id 0 5) (union_of low high))))
seek_ge-merge_example =
    seek_ge-merge slice_iterator slice_forward slice-Seeks (id 0 5)
      (some (slice low) ∷ some (slice high) ∷ []) (low ∷ high ∷ []) (union_of low high) 0
      (low_holds, (high_holds, tt)) (union_of-IsUnion low high low-Ascending high-Ascending)

abbrev is_first_volume : GlobalRecordId → Bool
is_first_volume x = x.volume == 0

collect-filter_example :
    collect_global_iterator (filter_iterator slice_iterator is_first_volume) (some (slice high)) 0
    ≡ limited 0 (filter is_first_volume high)
collect-filter_example =
    collect-filter slice_iterator slice_forward is_first_volume (slice high) high 0 high_holds

collect-intersection_example :
    collect_global_iterator
      (intersection_iterator slice_iterator slice_iterator)
      (some (new_global_intersection_iterator (some (slice low)) (some (slice high))))
      0
    ≡ limited 0 (common low high)
collect-intersection_example =
    collect-intersection slice_iterator slice_iterator slice_forward slice_forward slice-Seeks
      slice-Seeks (slice low) (slice high) low high 0 low_holds high_holds

collect-exclusion_example :
    collect_global_iterator
      (exclusion_iterator slice_iterator slice_iterator)
      (some (new_global_exclusion_iterator (some (slice low)) (some (slice high))))
      0
    ≡ limited 0 (minus low high)
collect-exclusion_example =
    collect-exclusion slice_iterator slice_iterator slice_forward slice_forward slice-Seeks
      (slice low) (some (slice high)) low high 0 low_holds
      (optional_holds slice_iterator slice_forward (slice high) high high_holds)

seek_ge_skips_example :
    (seek_ge slice_iterator slice_iterator (id 0 1) (
      running
        (slice_iterator.next (slice low)).0
        (slice_iterator.next (slice low)).0
        (some (id 0 1))
        (some (id 0 1)))).1
    ≢ some (id 0 1)
unfolding before compare_global_record_id
seek_ge_skips_example =
    seek_ge_skips slice_iterator slice_iterator slice_forward slice_forward slice-Seeks slice-Seeks
      (id 0 1) (id 0 1) (slice_iterator.next (slice low)).0 (slice_iterator.next (slice low)).0
      (id 0 5 ∷ []) (id 0 5 ∷ []) refl (Buffered-next slice_forward (slice low) low low_holds)
      (Buffered-next slice_forward (slice low) low low_holds)

intersect_lem_example :
    intersect_global_iterators slice_iterator slice_iterator
      (some (slice low))
      (some (slice high))
      1
    ≡ limited 1 (common low high)
intersect_lem_example =
    intersect_lem slice_iterator slice_iterator slice_forward slice_forward slice-Seeks slice-Seeks
      (slice low) (slice high) low high 1 low_holds high_holds

union_lem_example :
    union_global_iterators slice_iterator slice_iterator (some (slice low)) (some (slice high)) 2
    ≡ limited 2 (union_of low high)
union_lem_example =
    union_lem slice_iterator slice_iterator slice_forward slice_forward (slice low) (slice high) low
      high 2 low_holds high_holds

-- `1, 5` met with `1, 5` and then with `5`: the nested intersection loses the id 5.
three_way :
    collect_global_iterator
      (intersection_iterator (intersection_iterator slice_iterator slice_iterator) slice_iterator)
      (some (
        new_global_intersection_iterator
          (some (new_global_intersection_iterator (some (slice low)) (some (slice low))))
          (some (slice (id 0 5 ∷ [])))))
      0
    ≡ []
unfolding collect_global_iterator intersection_iterator slice_iterator
    new_global_intersection_iterator new_global_id_slice compare_global_record_id before
three_way = refl
