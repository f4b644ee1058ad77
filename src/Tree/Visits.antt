-- ===== src/Tree/Visits.antt =====
-- cmd/seekfs/index_format.go: `walk` of `buildSubtreeRanges` to its end, from a record and from several.
use seekfs.Common.{
  ℕ, zero, suc, ◌+◌, ◌^◌, ◌≤◌, ◌<◌, ◌≡◌, ap, subst, ◌∙◌, Bool-cases, true, false, ◌||◌, inl, inr,
  List, [], ◌∷◌, length, length-append, leb, ◌==◌, ==_iff, arith,
}
use seekfs.Replay.BaseIds.{member}
use seekfs.Replay.Volume.{Base, record_count, child_ids_for_record}
use seekfs.Replay.Marks.{Below, itself, child}
use seekfs.Tree.Ranges.{Walk, walk_each, enter, leave, walk}
use seekfs.Tree.Walked.{
  ParentsSeen, unseen, unseen-set, is_seen, IsValid, UpClosed, Walked, seen_after, walked_none,
  walked_both, walked_from,
}
use seekfs.Tree.Walks.{enter_seen, enter-IsValid, enter-UpClosed, walked_record}

Below-trans : (base : Base) (a b k : ℕ) → Below base a b → Below base b k → Below base a k
Below-trans base a b _ r itself = r
Below-trans base a b _ r (child i k s m l) = child i k (Below-trans base a b i r s) m l

-- What is below one of the records.
abbrev pub BelowSome : Base → List ℕ → ℕ → Type 0
BelowSome base ids k =
    (id : ℕ) × (member id ids ≡ true) × (id < record_count base) × Below base id k

-- A step that visits a record from a state with room for it.
pub Visits : Base → ℕ → (ℕ → Walk → Walk) → Type 0
Visits base room visit =
    (id : ℕ) (w : Walk)
    → IsValid base w
    → UpClosed base w
    → (id < record_count base → ParentsSeen base w id)
    → unseen (record_count base) w.seen < room
    → Walked base (λ k. (id < record_count base) × Below base id k) w (visit id w)
      × (id < record_count base → is_seen (visit id w) id ≡ true)

unseen_least :
    (base : Base) (From : ℕ → Type 0) (w after : Walk)
    → IsValid base w
    → Walked base From w after
    → unseen (record_count base) after.seen ≤ unseen (record_count base) w.seen
unseen_least base From w after v d =
    let grown : length after.order ≡ length w.order + length d.new =
      ap length d.grown ∙ length-append w.order d.new in
    omega (arith, v.counted, d.valid.counted, grown)

pub walk_each-Walked :
    (base : Base) (room : ℕ) (visit : ℕ → Walk → Walk)
    → Visits base room visit
    → (ids : List ℕ) (w : Walk) → IsValid base w
    → UpClosed base w
    → ((id p : ℕ)
        → member id ids ≡ true
        → id < record_count base
        → p < record_count base
        → member id (child_ids_for_record base p) ≡ true
        → is_seen w p ≡ true)
    → unseen (record_count base) w.seen < room
    → Walked base (BelowSome base ids) w (walk_each visit ids w)
      × ((id : ℕ)
          → member id ids ≡ true
          → id < record_count base
          → is_seen (walk_each visit ids w) id ≡ true)
unfolding walk_each Visits
walk_each-Walked base room visit step [] w v u s r =
    (walked_none base (BelowSome base []) w v u, λ id h b. absurd (ground (arith, h)))
walk_each-Walked base room visit step (id ∷ ids) w v u s r =
    let From : ℕ → Type 0 = λ k. (id < record_count base) × Below base id k in
    let (first, own) = step id w v u (λ b p l m. s id p (ground arith) b l m) r in
    let mid = visit id w in
    let at_mid = seen_after base From w mid v first in
    let (rest, others) =
      walk_each-Walked base room visit step ids mid first.valid first.up
        (λ i p h b l m. ground (arith, s i p (ground (arith, h)) b l m, at_mid p))
        (omega (arith, r, unseen_least base From w mid v first)) in
    let after = walk_each visit ids mid in
    let at_end = seen_after base (BelowSome base ids) mid after first.valid rest in
    (
      walked_both base (BelowSome base (id ∷ ids)) w mid after v
          (walked_from base From (BelowSome base (id ∷ ids)) w mid
            (λ k (b, below). (id, ground arith, b, below)) first)
          (walked_from base (BelowSome base ids) (BelowSome base (id ∷ ids)) mid after
            (λ k (i, m, b, below). (i, ground (arith, m), b, below)) rest),
      λ i h b. elim (Bool-cases (i == id)) [
        | inl y ↦
            let same : i ≡ id = (==_iff i id).0 y in
            let now : is_seen mid id ≡ true = own (subst (λ z. z < record_count base) same b) in
            ap (is_seen after) same ∙ ground (arith, at_end id, now)
        | inr o ↦ others i (ground (arith, h, o)) b
      ],
    )

room_left :
    (base : Base) (fuel id : ℕ) (w : Walk)
    → IsValid base w
    → id < record_count base
    → is_seen w id ≡ false
    → unseen (record_count base) w.seen < suc fuel
    → unseen (record_count base) (enter id w).seen < fuel
unfolding enter
room_left base fuel id w v l f r =
    omega (arith, r, unseen-set (record_count base) id w.seen f l (rw v.seen_length l))

module _ (base : Base) (small : record_count base < 2 ^ 32)
    (lone : (p q k : ℕ)
      → p < record_count base
      → q < record_count base
      → member k (child_ids_for_record base p) ≡ true
      → member k (child_ids_for_record base q) ≡ true
      → p ≡ q) where
  pub walk-Visits : (fuel : ℕ) → Visits base fuel (walk base fuel)
  unfolding walk Visits leave
  walk-Visits zero id w v u s r = absurd (omega (arith, r))
  walk-Visits (suc fuel) id w v u s r =
      let From : ℕ → Type 0 = λ k. (id < record_count base) × Below base id k in
      elim (Bool-cases (leb (record_count base) id || is_seen w id)) [
        | inl skip ↦ rw (walk, skip) (walked_none base From w v u, λ b. ground (arith, skip, b))
        | inr go ↦
            let l : id < record_count base = ground (arith, go) in
            let f : is_seen w id ≡ false = ground (arith, go) in
            let entered = enter_seen base small lone id w v l f in
            let w1 = enter id w in
            let v1 = enter-IsValid base small lone id w v l f in
            let children = child_ids_for_record base id in
            let (d, taken) =
              walk_each-Walked base fuel (walk base fuel) (walk-Visits fuel) children w1 v1
                (enter-UpClosed base small lone id w v l f u (s l))
                (λ c p h b q m. ap (is_seen w1) (lone p id c q l m h) ∙ ground (arith, entered id))
                (room_left base fuel id w v l f r) in
            let inner = walk_each (walk base fuel) children w1 in
            let below =
              walked_from base (BelowSome base children) (Below base id) w1 inner
                (λ k (i, m, b, below). Below-trans base id i k (child id i itself m b) below) d in
            let whole = walked_record base small lone id w v l f u (s l) inner below taken in
            rw (walk, go)
              (
                walked_from base (Below base id) From w (leave id inner) (λ k b. (l, b)) whole,
                λ b.
                    ground
                      (arith, seen_after base (Below base id) w1 inner v1 below id, entered id),
              )
      ]
