-- ===== src/Replay/Subtree.antt =====
-- cmd/seekfs/service_replay.go: what `tombstoneBaseSubtree` marks where the volume has no subtree columns.
use seekfs.Common.{
  ℕ, ◌+◌, ◌<◌, ◌≡◌, ◌⊎◌, ◌↔◌, refl, sym, subst, Bool, Bool-cases, true, false, inl, inr, some, [],
  ◌∷◌, get_or, leb, ◌==◌, arith,
}
use seekfs.Replay.BaseIds.{OverlayBaseIdSet, add_all, contains, member}
use seekfs.Replay.Volume.{Base, slice, record_count}
use seekfs.Replay.Sizes.{pending, has_subtree, tombstone_base_subtree}
use seekfs.Replay.Marks.{
  Below, itself, child, ClosedBut, AllBelow, id_cases, tombstone_loop_ends, tombstone_loop-Marks,
}

abbrev Truth : Bool → Type 0
Truth true = Unit
Truth false = ⊥

module _ (base : Base) where
  -- The marking of a base record and of what is below it ends, whatever is marked.
  pub tombstone_base_subtree_ends :
      (set : OverlayBaseIdSet) (root : ℕ)
      → (after : OverlayBaseIdSet) × (tombstone_base_subtree base set root ≡ some after)
  unfolding tombstone_base_subtree
  tombstone_base_subtree_ends set root =
      let (after, e) =
        tombstone_loop_ends base (pending base (record_count base) set + 2) (root ∷ []) set
          (omega arith) in
      elim (Bool-cases (leb (record_count base) root)) [
        | inl y ↦ rw (tombstone_base_subtree, y) (set, refl)
        | inr n ↦ elim (Bool-cases (has_subtree base root)) [
          | inl y ↦
              rw (tombstone_base_subtree, n, y)
                (
                  add_all set (
                      slice base base.subtree_order (get_or base.subtree_start root 0)
                        (get_or base.subtree_end root 0)),
                  refl,
                )
          | inr h ↦ rw (tombstone_base_subtree, n, h) (after, e)
        ]
      ]

  Below-marked :
      (root k : ℕ) (after : OverlayBaseIdSet)
      → ClosedBut base [] after
      → contains after root ≡ true
      → Below base root k
      → contains after k ≡ true
  unfolding ClosedBut
  Below-marked root _ after c r itself = r
  Below-marked root _ after c r (child id k below m b) =
      ground (arith, c id k (Below-marked root id after c r below) m b)

  only_top : (k root : ℕ) → member k (root ∷ []) ≡ true → (k == root) ≡ false → ⊥
  only_top k root s o = let e : false ≡ true = ground (arith, s, o) in subst Truth (sym e) tt

  -- Where the volume has no columns of the root's subtree and with each marked record its children are
  -- marked, the marking of the root ends, marks the root and what the children lead to from it, nothing
  -- else, and again with each marked record its children are marked.
  pub tombstone_base_subtree_lem :
      (set : OverlayBaseIdSet) (root : ℕ)
      → root < record_count base
      → has_subtree base root ≡ false
      → ClosedBut base [] set
      → (after : OverlayBaseIdSet) × (tombstone_base_subtree base set root ≡ some after)
        × ClosedBut base [] after
        × ((k : ℕ) → (contains after k ≡ true) ↔ ((contains set k ≡ true) ⊎ Below base root k))
  unfolding tombstone_base_subtree ClosedBut AllBelow
  tombstone_base_subtree_lem set root r h c =
      let inside : leb (record_count base) root ≡ false = ground (arith, r) in
      let (after, e, m) =
        tombstone_loop-Marks base (pending base (record_count base) set + 2) root (root ∷ []) set
          (λ i k s l b. ground (arith, c i k s l b))
          (λ k s b.
            id_cases base (Below base root) root k itself (λ o. absurd (only_top k root s o)))
          (omega arith) in
      (
        after,
        rw (tombstone_base_subtree, inside, h) e,
        m.closed,
        λ k. (
          m.only k,
          λ x. elim x [
            | inl y ↦ m.kept k y
            | inr below ↦ Below-marked root k after m.closed (m.taken root (ground arith) r) below
          ],
        ),
      )
