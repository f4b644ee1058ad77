-- ===== src/Packed/SideTable/Laws.antt =====
-- cmd/seekfs/packed_records.go: the side tables read and write as maps from ids to values.
use seekfs.Common.{
  ℕ, suc, ◌≡◌, ap, sym, ◌∙◌, Bool-cases, inl, inr, Option, none, some, arith, ◌==◌, if◌then◌else◌,
  length-set, ==_iff,
}
use seekfs.Packed.Search.{rank}
use seekfs.Packed.SideTable.Defs.{SideTable, holds_at, lookup, upsert, remove}
use seekfs.Packed.SideTable.Entries.{
  entry, IsValid, lookup_rank, entry-set, entry-insert_at, entry-remove_at, entry_missing,
}
use seekfs.Packed.SideTable.Order.{
  Increasing-remove_at, Increasing-insert_at, length-insert_at, length-remove_at, holds_at_lt,
  slot-rank,
}

module _ {V : Type 0} where
  unfoldable pub value_at : ℕ → SideTable V → Option V
  value_at k t = entry k t.ids t.values

  pub lookup-value_at : (k : ℕ) (t : SideTable V) → IsValid t → lookup k t ≡ value_at k t
  unfolding lookup value_at
  lookup-value_at k t v =
      rw (slot-rank k t.ids v.sorted) (lookup_rank k t.ids t.values v.sorted v.paired)

  pub upsert-IsValid : (id : ℕ) (w : V) (t : SideTable V) → IsValid t → IsValid (upsert id w t)
  unfolding upsert
  upsert-IsValid id w t v =
      let r = rank id t.ids in
      rw (slot-rank id t.ids v.sorted) (elim (Bool-cases (holds_at r id t.ids)) [
        | inl e ↦
            rw e (record { sorted = v.sorted; paired = v.paired ∙ sym (length-set t.values r w) })
        | inr e ↦ rw e (record {
          sorted = Increasing-insert_at id t.ids v.sorted e;
          paired =
              length-insert_at r id t.ids ∙ ap suc v.paired ∙ sym (length-insert_at r w t.values);
        })
      ])

  pub value_at-upsert :
      (k id : ℕ) (w : V) (t : SideTable V)
      → IsValid t
      → value_at k (upsert id w t) ≡ (if k == id then some w else value_at k t)
  unfolding upsert value_at
  value_at-upsert k id w t v =
      let r = rank id t.ids in
      rw (slot-rank id t.ids v.sorted) (elim (Bool-cases (holds_at r id t.ids)) [
        | inl e ↦ rw e (entry-set k id w t.ids t.values v.sorted v.paired e)
        | inr e ↦ rw e (entry-insert_at k id w t.ids t.values v.sorted v.paired e)
      ])

  pub remove-IsValid : (id : ℕ) (t : SideTable V) → IsValid t → IsValid (remove id t)
  unfolding remove
  remove-IsValid id t v =
      let r = rank id t.ids in
      rw (slot-rank id t.ids v.sorted) (elim (Bool-cases (holds_at r id t.ids)) [
        | inr e ↦ rw e v
        | inl e ↦
            let here = holds_at_lt r id t.ids e in
            rw e (record {
              sorted = Increasing-remove_at r t.ids v.sorted;
              paired = omega (
                arith,
                v.paired,
                length-remove_at r t.ids here,
                length-remove_at r t.values (omega (arith, here, v.paired)),
              );
            })
      ])

  pub value_at-remove :
      (k id : ℕ) (t : SideTable V)
      → IsValid t
      → value_at k (remove id t) ≡ (if k == id then none else value_at k t)
  unfolding remove value_at
  value_at-remove k id t v =
      let r = rank id t.ids in
      rw (slot-rank id t.ids v.sorted) (elim (Bool-cases (holds_at r id t.ids)) [
        | inl e ↦ rw e (entry-remove_at k id t.ids t.values v.sorted v.paired e)
        | inr e ↦ rw e (elim (Bool-cases (k == id)) [
          | inr n ↦ rw n
          | inl y ↦ rw (y, (==_iff k id).0 y) (entry_missing id t.ids t.values v.sorted e)
        ])
      ])

-- A lookup after an upsert finds the new value at its id, and at every other id what was there.
pub lookup-upsert :
    {V : Type 0} (k id : ℕ) (w : V) (t : SideTable V)
    → IsValid t
    → lookup k (upsert id w t) ≡ (if k == id then some w else lookup k t)
lookup-upsert k id w t v =
    rw (lookup-value_at k (upsert id w t) (upsert-IsValid id w t v), lookup-value_at k t v)
      (value_at-upsert k id w t v)

-- A lookup after a removal finds nothing at the removed id, and at every other id what was there.
pub lookup-remove :
    {V : Type 0} (k id : ℕ) (t : SideTable V)
    → IsValid t
    → lookup k (remove id t) ≡ (if k == id then none else lookup k t)
lookup-remove k id t v =
    rw (lookup-value_at k (remove id t) (remove-IsValid id t v), lookup-value_at k t v)
      (value_at-remove k id t v)
