-- ===== src/Global/Operators.antt =====
-- cmd/seekfs/global_iterators.go: the set operators run to the end by `collectGlobalIterator`, over
-- children that keep their contract.
use seekfs.Common.{
  ℕ, ◌≡◌, ◌≢◌, refl, sym, ◌∙◌, Bool, false, Option, some, List, ◌∷◌, head?, tail, filter,
}
use seekfs.Global.Id.{GlobalRecordId, before, drop_before}
use seekfs.Global.Iterator.{Iterator, Forward, Seeks}
use seekfs.Global.Sets.{common, minus, common_behind}
use seekfs.Global.Union.{IsUnion}
use seekfs.Global.Buffered.{Buffered}
use seekfs.Global.Optional.{optional_forward}
use seekfs.Global.Filter.{filter_iterator, filter_forward, filter_holds}
use seekfs.Global.Intersection.Defs.{
  running, intersection_iterator, new_global_intersection_iterator, seek_ge,
}
use seekfs.Global.Intersection.Laws.{intersection_forward, new_intersection_holds, seek_ge-children}
use seekfs.Global.Exclusion.Defs.{exclusion_iterator, new_global_exclusion_iterator}
use seekfs.Global.Exclusion.Laws.{exclusion_forward, new_exclusion_holds}
use seekfs.Global.Merge.Defs.{merge_iterator, new_global_merge_iterator}
use seekfs.Global.Merge.Laws.{merge_forward, merge-Seeks, new_merge_holds, Children}
use seekfs.Global.Collect.Defs.{collect_global_iterator}
use seekfs.Global.Collect.Laws.{limited, collect_lem}

module _ {S : Type 0} (I : Iterator S) (c : Forward I) where
  -- Over children each of which returns an ascending list of ids, `l` being the union of the lists,
  -- a merge returns `l`, up to the limit: every id of every child once, in order.
  pub collect-merge :
      (children : List (Option S)) (ls : List (List GlobalRecordId)) (l : List GlobalRecordId)
      (limit : ℕ)
      → Children I c children ls
      → IsUnion l ls
      → collect_global_iterator
          (merge_iterator I)
          (some (new_global_merge_iterator I children))
          limit
        ≡ limited limit l
  collect-merge children ls l limit h u =
      collect_lem (merge_iterator I) (merge_forward I c) (new_global_merge_iterator I children) l
        limit (new_merge_holds I c children ls l h u)

  -- Over children that keep the contract of SeekGE too, a seek of a merge that has just been made returns
  -- the first id of the union that is not before the target, and the ids behind that one are returned
  -- next, up to the limit. A child that loses ids when it is sought keeps no such contract.
  pub seek_ge-merge :
      Seeks I c
      → (t : GlobalRecordId) (children : List (Option S)) (ls : List (List GlobalRecordId))
        (l : List GlobalRecordId) (limit : ℕ)
      → Children I c children ls
      → IsUnion l ls
      → ((merge_iterator I).seek_ge t (new_global_merge_iterator I children)).1
          ≡ head? (drop_before t l)
        × (collect_global_iterator
              (merge_iterator I)
              (some ((merge_iterator I).seek_ge t (new_global_merge_iterator I children)).0)
              limit
            ≡ limited limit (tail (drop_before t l)))
  seek_ge-merge k t children ls l limit h u =
      let seeks = merge-Seeks I c k in
      let hold = new_merge_holds I c children ls l h u in
      (
        seeks.seek_result t _ l hold,
        collect_lem (merge_iterator I) (merge_forward I c) _ _ limit (seeks.seek_state t _ l hold),
      )

  -- A filter of an iterator returns the ids that the test keeps, in order, up to the limit.
  pub collect-filter :
      (keep : GlobalRecordId → Bool) (s : S) (l : List GlobalRecordId) (limit : ℕ)
      → c.Holds s l
      → collect_global_iterator (filter_iterator I keep) (some s) limit
        ≡ limited limit (filter keep l)
  collect-filter keep s l limit hold =
      collect_lem (filter_iterator I keep) (filter_forward I keep c) s (filter keep l) limit
        (filter_holds I keep c s l hold)

module _ {A B : Type 0} (I : Iterator A) (J : Iterator B) (c : Forward I) (d : Forward J) where
  -- Over two children that keep the whole contract, an intersection returns the ids of the first
  -- that the second returns too, in order, up to the limit.
  pub collect-intersection :
      Seeks I c
      → Seeks J d
      → (a : A) (b : B) (la lb : List GlobalRecordId) (limit : ℕ) → c.Holds a la
      → d.Holds b lb
      → collect_global_iterator
          (intersection_iterator I J)
          (some (new_global_intersection_iterator (some a) (some b)))
          limit
        ≡ limited limit (common la lb)
  collect-intersection k m a b la lb limit ha hb =
      collect_lem (intersection_iterator I J) (intersection_forward I J c d k m) _ (common la lb)
        limit (new_intersection_holds I J c d k m a b la lb ha hb)

  -- An exclusion returns the included ids that the other child does not return, in order, up to the
  -- limit. Only the excluded child has to seek; one that is nil excludes nothing.
  pub collect-exclusion :
      Seeks J d
      → (a : A) (b : Option B) (la le : List GlobalRecordId) (limit : ℕ) → c.Holds a la
      → (optional_forward J d).Holds b le
      → collect_global_iterator
          (exclusion_iterator I J)
          (some (new_global_exclusion_iterator (some a) b))
          limit
        ≡ limited limit (minus la le)
  collect-exclusion m a b la le limit ha hb =
      collect_lem (exclusion_iterator I J) (exclusion_forward I J c d m) _ (minus la le) limit
        (new_exclusion_holds I J c d m a b la le ha hb)

  -- Once an intersection has read ahead an id `x` that both children hold, a seek to a target which
  -- `x` satisfies does not return `x`: the seek of the children drops what was read ahead.
  pub seek_ge_skips :
      Seeks I c
      → Seeks J d
      → (t x : GlobalRecordId) (a : A) (b : B) (la lb : List GlobalRecordId) → before x t ≡ false
      → Buffered c a (x ∷ la)
      → Buffered d b (x ∷ lb)
      → (seek_ge I J t (running a b (some x) (some x))).1 ≢ some x
  seek_ge_skips k m t x a b la lb h p q e =
      common_behind t x la (drop_before t lb) p.order.0
        (sym (seek_ge-children I J c d k m t _ a b la lb refl refl p.rest q.rest).0 ∙ e)
