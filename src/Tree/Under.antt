-- ===== src/Tree/Under.antt =====
-- cmd/seekfs/service_state.go and index_format.go: from the parents of the records to the ranges of subtrees.
use seekfs.Common.{
  ℕ, zero, suc, ◌^◌, ◌<◌, ◌≡◌, ◌⊎◌, refl, sym, ap, subst, ◌∙◌, Bool-cases, Option-cases, true,
  false, none, some, inl, inr, List, [], ◌∷◌, ◌++◌, length, get_or, ◌==◌, ==_iff, arith,
}
use seekfs.Replay.BaseIds.{member, member-append}
use seekfs.Replay.Volume.{CompactRecord, no_record, Base, record_count, child_ids_for_record}
use seekfs.Replay.Marks.{Below, itself, child}
use seekfs.Tree.Children.{parent_of}
use seekfs.Tree.Counts.{parent_below, parent_is, parent_is-none, parent_is-some}
use seekfs.Tree.Filled.{kids}
use seekfs.Tree.Built.{tops}
use seekfs.Tree.Parents.{sorted, child_ids-sorted}
use seekfs.Tree.Visits.{BelowSome}
use seekfs.Tree.Forest.{IsForest}

module _ (records : List CompactRecord) where
  -- The parents lead from the record to `root`.
  pub data Under (root : ℕ) : ℕ → Type 0 where
    own : Under root root
    up : (p k : ℕ) → Under root p → parent_of records k ≡ some p → k < length records → Under root k

  -- They lead to a record without a parent that is not deleted.
  pub data Rooted : ℕ → Type 0 where
    top :
        (k : ℕ)
        → parent_of records k ≡ none
        → (get_or records k no_record).deleted ≡ false
        → k < length records
        → Rooted k
    higher : (p k : ℕ) → Rooted p → parent_of records k ≡ some p → k < length records → Rooted k

  is_parent : (p k : ℕ) → parent_is records p k ≡ true → parent_of records k ≡ some p
  is_parent p k h = elim (Option-cases (parent_of records k)) [
    | inl e ↦ absurd (ground (arith, h, parent_is-none records k e p))
    | inr (q, e) ↦ e ∙ ap some ((==_iff q p).0 (sym (parent_is-some records k q e p) ∙ h))
  ]

  kids_only :
      (p m k : ℕ) → member k (kids records p m) ≡ true → (parent_of records k ≡ some p) × (k < m)
  kids_only p zero k h = absurd (ground (arith, h))
  kids_only p (suc m) k h = elim (Bool-cases (parent_is records p m)) [
    | inr n ↦
        let (e, l) = kids_only p m k (ap (member k) (sym (skipped n)) ∙ h) in (e, omega (arith, l))
    | inl y ↦ elim (Bool-cases (k == m)) [
      | inl s ↦
          let same : k ≡ m = (==_iff k m).0 s in
          (is_parent p k (ap (parent_is records p) same ∙ y), omega (arith, same))
      | inr o ↦
          let old : member k (kids records p m) ≡ true = ground (
            arith,
            ap (member k) (sym (taken y)) ∙ h,
            member-append (kids records p m) (m ∷ []) k,
            o,
          ) in
          let (e, l) = kids_only p m k old in (e, omega (arith, l))
    ]
  ]
    where
      skipped : parent_is records p m ≡ false → kids records p (suc m) ≡ kids records p m
      skipped n = rw (kids, n) refl

      taken : parent_is records p m ≡ true → kids records p (suc m) ≡ kids records p m ++ (m ∷ [])
      taken y = rw (kids, y) refl

  kids_all : (p m k : ℕ) → parent_of records k ≡ some p → k < m → member k (kids records p m) ≡ true
  kids_all p zero k e l = absurd (omega (arith, l))
  kids_all p (suc m) k e l = elim (Bool-cases (k == m)) [
    | inl s ↦
        let same : k ≡ m = (==_iff k m).0 s in
        let y : parent_is records p m ≡ true =
          sym (ap (parent_is records p) same) ∙ parent_is-some records k p e p ∙ ground arith in
        rw (kids, y) (ground (arith, member-append (kids records p m) (m ∷ []) k, s))
    | inr o ↦
        let old = kids_all p m k e (ground (arith, l, o)) in
        elim (Bool-cases (parent_is records p m)) [
          | inl y ↦ rw (kids, y) (ground (arith, member-append (kids records p m) (m ∷ []) k, old))
          | inr n ↦ rw (kids, n) old
        ]
  ]

  tops_step :
      (m : ℕ)
      → (tops records (suc m) ≡ tops records m)
        ⊎ ((parent_of records m ≡ none) × (tops records (suc m) ≡ tops records m ++ (m ∷ [])))
  tops_step m = elim (Option-cases (parent_of records m)) [
    | inr (q, e) ↦ inl (rw (tops, e) refl)
    | inl e ↦ elim (Bool-cases (get_or records m no_record).deleted) [
      | inl y ↦ inl (rw (tops, e, y) refl)
      | inr n ↦ inr (e, rw (tops, e, n) refl)
    ]
  ]

  tops_only : (m k : ℕ) → member k (tops records m) ≡ true → parent_of records k ≡ none
  tops_only zero k h = absurd (ground (arith, h))
  tops_only (suc m) k h = elim (tops_step m) [
    | inl same ↦ tops_only m k (ap (member k) (sym same) ∙ h)
    | inr (e, more) ↦ elim (Bool-cases (k == m)) [
      | inl s ↦ ap (parent_of records) ((==_iff k m).0 s) ∙ e
      | inr o ↦ tops_only m k (
          ground
            (arith, ap (member k) (sym more) ∙ h, member-append (tops records m) (m ∷ []) k, o))
    ]
  ]

  tops_all :
      (m k : ℕ)
      → parent_of records k ≡ none
      → (get_or records k no_record).deleted ≡ false
      → k < m
      → member k (tops records m) ≡ true
  tops_all zero k e d l = absurd (omega (arith, l))
  tops_all (suc m) k e d l = elim (Bool-cases (k == m)) [
    | inl s ↦
        let same : m ≡ k = sym ((==_iff k m).0 s) in
        let none_own : parent_of records m ≡ none = ap (parent_of records) same ∙ e in
        let live : (get_or records m no_record).deleted ≡ false =
          ap (λ i. (get_or records i no_record).deleted) same ∙ d in
        rw (tops, none_own, live) (ground (arith, member-append (tops records m) (m ∷ []) k, s))
    | inr o ↦
        let old = tops_all m k e d (ground (arith, l, o)) in
        elim (tops_step m) [
          | inl same ↦ rw same old
          | inr (n, more) ↦ rw more (ground (arith, member-append (tops records m) (m ∷ []) k, old))
        ]
  ]

module _ (base : Base) (small : length base.records < 2 ^ 32) where
  abbrev pub tree : Base
  tree = sorted base small

  abbrev n : ℕ
  n = length base.records

  pub tree_count : record_count tree ≡ n
  unfolding record_count
  tree_count = refl

  inside : (k : ℕ) → k < record_count tree → k < n
  inside k = subst (λ m. k < m) tree_count

  outside : (k : ℕ) → k < n → k < record_count tree
  outside k = subst (λ m. k < m) (sym tree_count)

  kid_of :
      (p k : ℕ)
      → p < record_count tree
      → member k (child_ids_for_record tree p) ≡ true
      → (parent_of base.records k ≡ some p) × (k < n)
  kid_of p k b m =
      kids_only base.records p n k
        (ap (member k) (sym (child_ids-sorted base small p (inside p b))) ∙ m)

  kid_in :
      (p k : ℕ)
      → p < n
      → parent_of base.records k ≡ some p
      → k < n
      → member k (child_ids_for_record tree p) ≡ true
  kid_in p k b e l =
      ap (member k) (child_ids-sorted base small p b) ∙ kids_all base.records p n k e l

  pub Under-Below :
      (root k : ℕ) → root < n → Below tree root k → (Under base.records root k × (k < n))
  Under-Below root _ l itself = (own, l)
  Under-Below root _ l (child p k below m b) =
      let (under, c) = Under-Below root p l below in
      (up p k under (kid_of p k (outside p c) m).0 (inside k b), inside k b)

  pub Below-Under : (root k : ℕ) → root < n → Under base.records root k → Below tree root k
  Below-Under root _ l own = itself
  Below-Under root _ l (up p k under e b) =
      child p k (Below-Under root p l under) (kid_in p k (parent_below base.records k p e) e b)
        (outside k b)

  Below-top : (k : ℕ) → Rooted base.records k → BelowSome tree (tops base.records n) k
  Below-top _ (top k e d l) = (k, tops_all base.records n k e d l, outside k l, itself)
  Below-top _ (higher p k r e l) =
      let (t, m, b, below) = Below-top p r in
      (t, m, b, child p k below (kid_in p k (parent_below base.records k p e) e l) (outside k l))

  same_parent :
      (p q k : ℕ) → parent_of base.records k ≡ some p → parent_of base.records k ≡ some q → p ≡ q
  same_parent p q k e f = let both : some p ≡ some q = sym e ∙ f in ground (arith, both)

  no_parent : (p k : ℕ) → parent_of base.records k ≡ some p → parent_of base.records k ≡ none → ⊥
  no_parent p k e f = let both : some p ≡ none = sym e ∙ f in ground (arith, both)

  pub tree-IsForest :
      ((k : ℕ) → k < n → Rooted base.records k) → IsForest tree (tops base.records n)
  tree-IsForest rooted = record {
    lone = λ p q k b c m l. same_parent p q k (kid_of p k b m).0 (kid_of q k c l).0;
    tops = λ r p h b. elim (Bool-cases (member r (child_ids_for_record tree p))) [
      | inl y ↦ absurd (no_parent p r (kid_of p r b y).0 (tops_only base.records n r h))
      | inr o ↦ o
    ];
    reached = λ k b. Below-top k (rooted k (inside k b));
  }
