-- ===== src/Tree/Walks.antt =====
-- cmd/seekfs/index_format.go: `walk` of `buildSubtreeRanges` over one record and over several.
use mathlib.Core.List.{append_assoc}
use seekfs.Common.{
  ℕ, ◌%◌, ◌^◌, ◌<◌, ◌≡◌, refl, sym, ap, subst, ◌∙◌, Bool-cases, true, false, ◌||◌, inl, inr, List,
  [], ◌∷◌, ◌++◌, length, length-append, length-set, get_or-set, take, drop, ◌==◌, ==_iff, arith,
}
use seekfs.Replay.BaseIds.{member, member-append}
use seekfs.Replay.Volume.{Base, record_count, child_ids_for_record}
use seekfs.Replay.Marks.{Below, itself, child}
use seekfs.Tree.Ranges.{Walk, enter, leave}
use seekfs.Tree.Walked.{
  ParentsSeen, part, unseen-set, is_seen, start_of, end_of, IsValid, UpClosed, IsDone, Walked,
  seen_after,
}

part_back : (xs ys : List ℕ) → part (xs ++ ys) (length xs) (length (xs ++ ys)) ≡ ys
part_back [] ys = ap (λ m. take m ys) (omega arith) ∙ all_taken ys
  where
    all_taken : (zs : List ℕ) → take (length zs) zs ≡ zs
    all_taken [] = refl
    all_taken (z ∷ zs) = ap (λ ws. z ∷ ws) (all_taken zs)
part_back (x ∷ xs) ys =
    ap (λ m. take m (drop (length xs) (xs ++ ys))) (omega arith) ∙ part_back xs ys

module _ (base : Base) (small : record_count base < 2 ^ 32)
    (lone : (p q k : ℕ)
      → p < record_count base
      → q < record_count base
      → member k (child_ids_for_record base p) ≡ true
      → member k (child_ids_for_record base q) ≡ true
      → p ≡ q) where
  module _ (id : ℕ) (w : Walk) (v : IsValid base w) (l : id < record_count base)
      (f : is_seen w id ≡ false) where
    pub enter_seen : (k : ℕ) → is_seen (enter id w) k ≡ (k == id || is_seen w k)
    unfolding enter
    enter_seen k = ground (arith, get_or-set w.seen id true k false, v.seen_length, l)

    pub enter-IsValid : IsValid base (enter id w)
    unfolding enter
    enter-IsValid = record {
      listed = λ k. ground (arith, enter_seen k, v.listed k, member-append w.order (id ∷ []) k);
      inside = λ k s. elim (Bool-cases (k == id)) [
        | inl y ↦ subst (λ i. i < record_count base) (sym ((==_iff k id).0 y)) l
        | inr o ↦ v.inside k (ground (arith, s, o, enter_seen k))
      ];
      counted = omega (
        arith,
        v.counted,
        unseen-set (record_count base) id w.seen f l (rw v.seen_length l),
        length-append w.order (id ∷ []),
      );
      seen_length = length-set w.seen id true ∙ v.seen_length;
      start_length = length-set w.start id (length w.order % 2 ^ 32) ∙ v.start_length;
      end_length = v.end_length;
    }

    pub enter-UpClosed : UpClosed base w → ParentsSeen base w id → UpClosed base (enter id w)
    unfolding UpClosed
    enter-UpClosed u s p k b m h = elim (Bool-cases (k == id)) [
      | inl y ↦
          let at : member id (child_ids_for_record base p) ≡ true =
            ap (λ i. member i (child_ids_for_record base p)) (sym ((==_iff k id).0 y)) ∙ m in
          ground (arith, s p b at, enter_seen p)
      | inr o ↦ ground (arith, u p k b m (ground (arith, h, o, enter_seen k)), enter_seen p)
    ]

    -- The walk below the record that was entered, and the end of its range.
    module _ (u : UpClosed base w) (s : ParentsSeen base w id) (inner : Walk)
        (d : Walked base (Below base id) (enter id w) inner)
        (taken : (c : ℕ)
          → member c (child_ids_for_record base id) ≡ true
          → c < record_count base
          → is_seen inner c ≡ true) where
      entered_seen : (k : ℕ) → is_seen inner k ≡ (is_seen (enter id w) k || member k d.new)
      entered_seen = seen_after base (Below base id) (enter id w) inner enter-IsValid d

      -- What the children lead to is new.
      Below-new : (k : ℕ) → Below base id k → member k (id ∷ d.new) ≡ true
      unfolding UpClosed
      Below-new _ itself = ground arith
      Below-new _ (child i k below m b) =
          let at = Below-new i below in
          let taken_child : is_seen inner k ≡ true = elim (Bool-cases (i == id)) [
            | inl y ↦
                taken k
                  (ap (λ z. member k (child_ids_for_record base z)) (sym ((==_iff i id).0 y)) ∙ m) b
            | inr o ↦ d.closed i k (ground (arith, at, o)) m b
          ] in
          elim (Bool-cases (is_seen w k)) [
            | inr n ↦ ground (arith, taken_child, entered_seen k, enter_seen k, n)
            | inl y ↦
                let parent = d.valid.inside i (ground (arith, at, entered_seen i, enter_seen i)) in
                let before : is_seen w i ≡ true = u i k parent m y in
                absurd (elim (Bool-cases (i == id)) [
                  | inl q ↦
                      let free : is_seen w i ≡ false = ap (is_seen w) ((==_iff i id).0 q) ∙ f in
                      ground (arith, free, before)
                  | inr o ↦ ground (arith, d.fresh i (ground (arith, at, o)), enter_seen i, before)
                ])
          ]

      entered_order : inner.order ≡ w.order ++ (id ∷ d.new)
      unfolding enter
      entered_order = d.grown ∙ append_assoc w.order (id ∷ []) d.new

      length_inner : length inner.order % 2 ^ 32 ≡ length inner.order
      length_inner = omega (arith, d.valid.counted, small)

      length_before : length w.order % 2 ^ 32 ≡ length w.order
      length_before = omega (arith, v.counted, small)

      own_seen : is_seen (enter id w) id ≡ true
      own_seen = ground (arith, enter_seen id)

      own_start : start_of (leave id inner) id ≡ length w.order
      unfolding enter leave
      own_start =
          (d.kept id own_seen).0
          ∙ ground (
            arith,
            get_or-set w.start id (length w.order % 2 ^ 32) id 0,
            v.start_length,
            l,
            length_before,
          )

      own_end : end_of (leave id inner) id ≡ length inner.order
      unfolding leave
      own_end = ground (
        arith,
        get_or-set inner.end id (length inner.order % 2 ^ 32) id 0,
        d.valid.end_length,
        l,
        length_inner,
      )

      own_part : part inner.order (length w.order) (length inner.order) ≡ id ∷ d.new
      own_part = rw entered_order (part_back w.order (id ∷ d.new))

      own-IsDone : IsDone base (leave id inner) id
      unfolding leave
      own-IsDone = record {
        starts =
            rw (own_start, own_end, entered_order)
              (omega (arith, length-append w.order (id ∷ d.new)));
        ends = rw own_end (omega arith);
        below = λ x.
            rw (own_start, own_end, own_part)
              (
                λ h. elim (Bool-cases (x == id)) [
                  | inl y ↦ subst (Below base id) (sym ((==_iff x id).0 y)) itself
                  | inr o ↦ d.origin x (ground (arith, h, o))
                ],
                Below-new x,
              );
      }

      other_end : (k : ℕ) → (k == id) ≡ false → end_of (leave id inner) k ≡ end_of inner k
      unfolding leave
      other_end k o = ground (arith, get_or-set inner.end id (length inner.order % 2 ^ 32) k 0, o)

      other-IsDone :
          (k : ℕ) → (k == id) ≡ false → IsDone base inner k → IsDone base (leave id inner) k
      unfolding leave
      other-IsDone k o n =
          let e = other_end k o in
          record { starts = rw e n.starts; ends = rw e n.ends; below = λ x. rw e (n.below x) }

      pub walked_record : Walked base (Below base id) w (leave id inner)
      unfolding enter leave UpClosed
      walked_record = record {
        new = id ∷ d.new;
        grown = entered_order;
        fresh = λ k h. elim (Bool-cases (k == id)) [
          | inl y ↦ ap (is_seen w) ((==_iff k id).0 y) ∙ f
          | inr o ↦ ground (arith, d.fresh k (ground (arith, h, o)), enter_seen k)
        ];
        origin = λ k h. elim (Bool-cases (k == id)) [
          | inl y ↦ subst (Below base id) (sym ((==_iff k id).0 y)) itself
          | inr o ↦ d.origin k (ground (arith, h, o))
        ];
        closed = λ k c h m b. elim (Bool-cases (k == id)) [
          | inl y ↦
              taken c
                (ap (λ z. member c (child_ids_for_record base z)) (sym ((==_iff k id).0 y)) ∙ m) b
          | inr o ↦ d.closed k c (ground (arith, h, o)) m b
        ];
        done = λ k h. elim (Bool-cases (k == id)) [
          | inl y ↦ subst (IsDone base (leave id inner)) (sym ((==_iff k id).0 y)) own-IsDone
          | inr o ↦ other-IsDone k o (d.done k (ground (arith, h, o)))
        ];
        kept = λ k h.
            let other : (k == id) ≡ false = elim (Bool-cases (k == id)) [
              | inl y ↦ absurd (ground (arith, ap (is_seen w) ((==_iff k id).0 y) ∙ f, h))
              | inr o ↦ o
            ] in
            let (a, b) = d.kept k (ground (arith, h, enter_seen k)) in
            (
              a ∙ ground (arith, get_or-set w.start id (length w.order % 2 ^ 32) k 0, other),
              other_end k other ∙ b,
            );
        valid = record {
          listed = d.valid.listed;
          inside = d.valid.inside;
          counted = d.valid.counted;
          seen_length = d.valid.seen_length;
          start_length = d.valid.start_length;
          end_length = length-set inner.end id (length inner.order % 2 ^ 32) ∙ d.valid.end_length;
        };
        up = d.up;
      }
