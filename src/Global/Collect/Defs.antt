-- ===== src/Global/Collect/Defs.antt =====
-- cmd/seekfs/global_rank.go: `collectGlobalIterator`, `intersectGlobalIterators`,
-- `unionGlobalIterators` and `excludeGlobalIterator`. A nil iterator is `none`; a loop takes as many
-- rounds as the iterators have ids left.
use Prim.Native.Nat.{Ordering}
use seekfs.Common.{
  ℕ, zero, suc, ◌+◌, Bool, true, false, ◌&&◌, Option, none, some, List, [], ◌∷◌, ◌++◌, ltb, leb,
  length,
}
use seekfs.Global.Id.{GlobalRecordId, compare_global_record_id}
use seekfs.Global.Iterator.{Iterator}

-- `limit > 0 && len(out) >= limit`
abbrev pub reached : ℕ → List GlobalRecordId → Bool
reached limit out = ltb 0 limit && leb limit (length out)

module _ {S : Type 0} (I : Iterator S) where
  unfoldable pub collect_loop : ℕ → ℕ → S → List GlobalRecordId → List GlobalRecordId
  collect_loop zero limit s out = out
  collect_loop (suc f) limit s out =
      let (s', r) = I.next s in
      elim r [
        | none ↦ out
        | some id ↦
            let out' = out ++ (id ∷ []) in
            elim (reached limit out') [ true ↦ out' | false ↦ collect_loop f limit s' out' ]
      ]

  unfoldable pub collect_global_iterator : Option S → ℕ → List GlobalRecordId
  unfolding collect_loop
  collect_global_iterator none limit = []
  collect_global_iterator (some s) limit = collect_loop (suc (I.budget s)) limit s []

module _ {A B : Type 0} (I : Iterator A) (J : Iterator B) where
  unfoldable pub intersect_loop :
      ℕ
      → ℕ
      → A
      → B
      → Option GlobalRecordId
      → Option GlobalRecordId
      → List GlobalRecordId
      → List GlobalRecordId
  intersect_loop zero limit a b i j out = out
  intersect_loop (suc f) limit a b none j out = out
  intersect_loop (suc f) limit a b (some x) none out = out
  intersect_loop (suc f) limit a b (some x) (some y) out = elim (compare_global_record_id x y) [
    | Ordering.eq ↦
        let out' = out ++ (x ∷ []) in
        let (a', i) = I.next a in
        let (b', j) = J.next b in
        elim (reached limit out') [ true ↦ out' | false ↦ intersect_loop f limit a' b' i j out' ]
    | Ordering.lt ↦ let (a', i) = I.seek_ge y a in intersect_loop f limit a' b i (some y) out
    | _ ↦ let (b', j) = J.seek_ge x b in intersect_loop f limit a b' (some x) j out
  ]

  unfoldable pub intersect_global_iterators : Option A → Option B → ℕ → List GlobalRecordId
  unfolding intersect_loop
  intersect_global_iterators none b limit = []
  intersect_global_iterators (some a) none limit = []
  intersect_global_iterators (some a) (some b) limit =
      let (a', i) = I.next a in
      let (b', j) = J.next b in intersect_loop (I.budget a' + J.budget b' + 3) limit a' b' i j []

  -- One round of `unionGlobalIterators`: the switch on which side is behind, then the append.
  unfoldable pub union_loop :
      ℕ
      → ℕ
      → A
      → B
      → Option GlobalRecordId
      → Option GlobalRecordId
      → List GlobalRecordId
      → List GlobalRecordId
  union_loop zero limit a b i j out = out
  union_loop (suc f) limit a b none none out = out
  union_loop (suc f) limit a b (some x) none out =
      let out' = out ++ (x ∷ []) in
      let (a', i) = I.next a in
      elim (reached limit out') [ true ↦ out' | false ↦ union_loop f limit a' b i none out' ]
  union_loop (suc f) limit a b none (some y) out =
      let out' = out ++ (y ∷ []) in
      let (b', j) = J.next b in
      elim (reached limit out') [ true ↦ out' | false ↦ union_loop f limit a b' none j out' ]
  union_loop (suc f) limit a b (some x) (some y) out = elim (compare_global_record_id x y) [
    | Ordering.lt ↦
        let out' = out ++ (x ∷ []) in
        let (a', i) = I.next a in
        elim (reached limit out') [ true ↦ out' | false ↦ union_loop f limit a' b i (some y) out' ]
    | Ordering.eq ↦
        let out' = out ++ (x ∷ []) in
        let (a', i) = I.next a in
        let (b', j) = J.next b in
        elim (reached limit out') [ true ↦ out' | false ↦ union_loop f limit a' b' i j out' ]
    | _ ↦
        let out' = out ++ (y ∷ []) in
        let (b', j) = J.next b in
        elim (reached limit out') [ true ↦ out' | false ↦ union_loop f limit a b' (some x) j out' ]
  ]

  unfoldable pub union_global_iterators : Option A → Option B → ℕ → List GlobalRecordId
  unfolding union_loop collect_global_iterator
  union_global_iterators none b limit = collect_global_iterator J b limit
  union_global_iterators (some a) none limit = collect_global_iterator I (some a) limit
  union_global_iterators (some a) (some b) limit =
      let (a', i) = I.next a in
      let (b', j) = J.next b in union_loop (I.budget a' + J.budget b' + 3) limit a' b' i j []
