-- ===== src/Replay/Marks.antt =====
-- cmd/seekfs/service_replay.go: the loop of `tombstoneBaseSubtree` over its stack.
use seekfs.Common.{
  ℕ, zero, suc, ◌+◌, ◌<◌, ◌≡◌, ◌⊎◌, refl, sym, ap, subst, ◌∙◌, Bool-cases, true, false, ◌||◌, inl,
  inr, some, List, [], ◌∷◌, length, ltb, leb, ◌==◌, ==_iff, if◌then◌else◌, arith,
}
use seekfs.Replay.BaseIds.{OverlayBaseIdSet, add, contains, contains-add, member}
use seekfs.Replay.Volume.{Base, record_count, child_ids_for_record}
use seekfs.Replay.Sizes.{push_all, tombstone_loop, pending}

length-push_all : (ids stack : List ℕ) → length (push_all ids stack) ≡ length ids + length stack
unfolding push_all
length-push_all [] stack = omega arith
length-push_all (id ∷ ids) stack = omega (arith, length-push_all ids (id ∷ stack))

member-push_all :
    (ids stack : List ℕ) (k : ℕ) → member k (push_all ids stack) ≡ (member k ids || member k stack)
unfolding push_all
member-push_all [] stack k = refl
member-push_all (id ∷ ids) stack k = ground (arith, member-push_all ids (id ∷ stack) k)

module _ (base : Base) where
  pending-add :
      (n id : ℕ) (set : OverlayBaseIdSet)
      → contains set id ≡ false
      → pending base n (add set id)
          + (if ltb id n then length (child_ids_for_record base id) else 0)
        ≡ pending base n set
  unfolding pending
  pending-add zero id set c = ground arith
  pending-add (suc n) id set c = elim (Bool-cases (n == id)) [
    | inl y ↦
        let same : n ≡ id = (==_iff n id).0 y in
        let marked : contains (add set id) n ≡ true = ground (arith, contains-add set id n, y) in
        let free : contains set n ≡ false = ap (contains set) same ∙ c in
        let size = ap (λ z. length (child_ids_for_record base z)) same in
        let rest = pending-add n id set c in ground (arith, marked, free, size, rest, y)
    | inr o ↦
        let kept : contains (add set id) n ≡ contains set n =
          ground (arith, contains-add set id n, o) in
        let rest = pending-add n id set c in ground (arith, kept, rest, o)
  ]

  -- The records of the base that the children lead to from the root.
  pub data Below (root : ℕ) : ℕ → Type 0 where
    itself : Below root root
    child :
        (id k : ℕ)
        → Below root id
        → member k (child_ids_for_record base id) ≡ true
        → k < record_count base
        → Below root k

  -- With a marked record its children are marked, or wait on the stack.
  unfoldable pub ClosedBut : List ℕ → OverlayBaseIdSet → Type 0
  ClosedBut stack set =
      (id k : ℕ)
      → contains set id ≡ true
      → member k (child_ids_for_record base id) ≡ true
      → k < record_count base
      → (contains set k || member k stack) ≡ true

  -- The marks that the loop makes from a set and a stack.
  pub record Marks (root : ℕ) (stack : List ℕ) (set after : OverlayBaseIdSet) : Type 0 where
    pub kept : (k : ℕ) → contains set k ≡ true → contains after k ≡ true
    pub taken : (k : ℕ) → member k stack ≡ true → k < record_count base → contains after k ≡ true
    pub closed : ClosedBut [] after
    pub only : (k : ℕ) → contains after k ≡ true → (contains set k ≡ true) ⊎ Below root k

  unfoldable pub AllBelow : ℕ → List ℕ → Type 0
  AllBelow root stack = (k : ℕ) → member k stack ≡ true → k < record_count base → Below root k

  pub id_cases : (P : ℕ → Type 0) (id k : ℕ) → P id → ((k == id) ≡ false → P k) → P k
  id_cases P id k same other = elim (Bool-cases (k == id)) [
    | inl y ↦ subst P (sym ((==_iff k id).0 y)) same
    | inr o ↦ other o
  ]

  module _ (root id : ℕ) (stack : List ℕ) (set after : OverlayBaseIdSet) where
    -- The top of the stack is no record, or is marked already.
    module _ (skip : (leb (record_count base) id || contains set id) ≡ true) where
      ClosedBut-skip : ClosedBut (id ∷ stack) set → ClosedBut stack set
      unfolding ClosedBut
      ClosedBut-skip c i k m l b =
          id_cases (λ z. z < record_count base → (contains set z || member z stack) ≡ true) id k
            (λ b'. ground (arith, skip, b')) (λ o b'. ground (arith, c i k m l b', o)) b

      Marks-skip : Marks root stack set after → Marks root (id ∷ stack) set after
      Marks-skip m = record {
        kept = m.kept;
        taken = λ k s b.
            id_cases (λ z. z < record_count base → contains after z ≡ true) id k
              (λ b'. m.kept id (ground (arith, skip, b')))
              (λ o b'. m.taken k (ground (arith, s, o)) b') b;
        closed = m.closed;
        only = m.only;
      }

    module _ (go : (leb (record_count base) id || contains set id) ≡ false) where
      rest : List ℕ
      rest = push_all (child_ids_for_record base id) stack

      ClosedBut-mark : ClosedBut (id ∷ stack) set → ClosedBut rest (add set id)
      unfolding ClosedBut rest
      ClosedBut-mark c i k m l b = elim (Bool-cases (i == id)) [
        | inl y ↦
            let pushed : member k (child_ids_for_record base id) ≡ true =
              ap (λ z. member k (child_ids_for_record base z)) (sym ((==_iff i id).0 y)) ∙ l in
            ground (arith, pushed, member-push_all (child_ids_for_record base id) stack k)
        | inr o ↦
            let old = c i k (ground (arith, m, o, contains-add set id i)) l b in
            ground (
              arith,
              old,
              contains-add set id k,
              member-push_all (child_ids_for_record base id) stack k,
            )
      ]

      AllBelow-mark : AllBelow root (id ∷ stack) → AllBelow root rest
      unfolding AllBelow rest
      AllBelow-mark a k m b = elim (Bool-cases (member k (child_ids_for_record base id))) [
        | inl y ↦ child id k (a id (ground arith) (ground (arith, go))) y b
        | inr n ↦
            a k (ground (arith, m, n, member-push_all (child_ids_for_record base id) stack k)) b
      ]

      Marks-mark :
          AllBelow root (id ∷ stack)
          → Marks root rest (add set id) after
          → Marks root (id ∷ stack) set after
      unfolding AllBelow rest
      Marks-mark a m = record {
        kept = λ k h. m.kept k (ground (arith, h, contains-add set id k));
        taken = λ k s b. elim (Bool-cases (k == id)) [
          | inl y ↦ m.kept k (ground (arith, y, contains-add set id k))
          | inr o ↦
              m.taken k
                (ground (arith, s, o, member-push_all (child_ids_for_record base id) stack k)) b
        ];
        closed = m.closed;
        only = λ k h. elim (m.only k h) [
          | inr below ↦ inr below
          | inl h' ↦ elim (Bool-cases (k == id)) [
            | inl y ↦
                let top : Below root id = a id (ground arith) (ground (arith, go)) in
                inr (subst (Below root) (sym ((==_iff k id).0 y)) top)
            | inr o ↦ inl (ground (arith, h', o, contains-add set id k))
          ]
        ];
      }

  spent_on :
      (id : ℕ) (set : OverlayBaseIdSet)
      → (leb (record_count base) id || contains set id) ≡ false
      → pending base (record_count base) (add set id) + length (child_ids_for_record base id)
        ≡ pending base (record_count base) set
  spent_on id set go =
      let inside : ltb id (record_count base) ≡ true = ground (arith, go) in
      let children = child_ids_for_record base id in
      ap (λ b. pending base (record_count base) (add set id) + (if b then length children else 0))
        (sym inside)
      ∙ pending-add (record_count base) id set (ground (arith, go))

  -- The fuel is enough for the loop, whatever the marks.
  pub tombstone_loop_ends :
      (fuel : ℕ) (stack : List ℕ) (set : OverlayBaseIdSet)
      → pending base (record_count base) set + length stack < fuel
      → (after : OverlayBaseIdSet) × (tombstone_loop base fuel set stack ≡ some after)
  unfolding tombstone_loop
  tombstone_loop_ends zero stack set l = absurd (omega (arith, l))
  tombstone_loop_ends (suc fuel) [] set l = (set, refl)
  tombstone_loop_ends (suc fuel) (id ∷ stack) set l =
      elim (Bool-cases (leb (record_count base) id || contains set id)) [
        | inl skip ↦
            let (after, e) = tombstone_loop_ends fuel stack set (omega (arith, l)) in
            (after, rw (tombstone_loop, skip) e)
        | inr go ↦
            let children = child_ids_for_record base id in
            let (after, e) =
              tombstone_loop_ends fuel (push_all children stack) (add set id)
                (omega (arith, l, spent_on id set go, length-push_all children stack)) in
            (after, rw (tombstone_loop, go) e)
      ]

  pub tombstone_loop-Marks :
      (fuel root : ℕ) (stack : List ℕ) (set : OverlayBaseIdSet)
      → ClosedBut stack set
      → AllBelow root stack
      → pending base (record_count base) set + length stack < fuel
      → (after : OverlayBaseIdSet) × (tombstone_loop base fuel set stack ≡ some after)
        × Marks root stack set after
  unfolding tombstone_loop rest AllBelow
  tombstone_loop-Marks zero root stack set c a l = absurd (omega (arith, l))
  tombstone_loop-Marks (suc fuel) root [] set c a l =
      (set, refl, record { kept = λ k h. h; taken = λ k h b. cc; closed = c; only = λ k h. inl h })
  tombstone_loop-Marks (suc fuel) root (id ∷ stack) set c a l =
      elim (Bool-cases (leb (record_count base) id || contains set id)) [
        | inl skip ↦
            let (after, e, m) =
              tombstone_loop-Marks fuel root stack set (ClosedBut-skip root id stack set set skip c)
                (λ k h. a k (ground (arith, h))) (omega (arith, l)) in
            (after, rw (tombstone_loop, skip) e, Marks-skip root id stack set after skip m)
        | inr go ↦
            let children = child_ids_for_record base id in
            let (after, e, m) =
              tombstone_loop-Marks fuel root (push_all children stack) (add set id)
                (ClosedBut-mark root id stack set set go c)
                (AllBelow-mark root id stack set set go a)
                (omega (arith, l, spent_on id set go, length-push_all children stack)) in
            (after, rw (tombstone_loop, go) e, Marks-mark root id stack set after go a m)
      ]
