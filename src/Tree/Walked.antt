-- ===== src/Tree/Walked.antt =====
-- cmd/seekfs/index_format.go: what a part of the walk of `buildSubtreeRanges` has done.
use mathlib.Core.List.{append_assoc, append-nil}
use seekfs.Common.{
  ℕ, zero, suc, ◌+◌, ◌-◌, ◌≤◌, ◌<◌, ◌≡◌, ◌↔◌, ◌⊎◌, refl, sym, ap, ◌∙◌, Bool, Bool-cases, true,
  false, ◌||◌, inl, inr, List, [], ◌∷◌, ◌++◌, length, length-append, length-drop, get_or, set,
  get_or-set, take, drop, ◌==◌, ==_iff, if◌then◌else◌, arith,
}
use seekfs.Replay.BaseIds.{member, member-append}
use seekfs.Replay.Volume.{Base, record_count, child_ids_for_record}
use seekfs.Replay.Marks.{Below}
use seekfs.Tree.Ranges.{Walk}

abbrev pub part : List ℕ → ℕ → ℕ → List ℕ
part xs start end = take (end - start) (drop start xs)

drop_append : (s : ℕ) (xs ys : List ℕ) → s ≤ length xs → drop s (xs ++ ys) ≡ drop s xs ++ ys
drop_append zero xs ys h = refl
drop_append (suc s) [] ys h = absurd (omega (arith, h))
drop_append (suc s) (x ∷ xs) ys h = drop_append s xs ys (omega (arith, h))

take_append : (m : ℕ) (xs ys : List ℕ) → m ≤ length xs → take m (xs ++ ys) ≡ take m xs
take_append zero xs ys h = refl
take_append (suc m) [] ys h = absurd (omega (arith, h))
take_append (suc m) (x ∷ xs) ys h = ap (λ zs. x ∷ zs) (take_append m xs ys (omega (arith, h)))

pub part_append :
    (xs ys : List ℕ) (s e : ℕ) → s ≤ e → e ≤ length xs → part (xs ++ ys) s e ≡ part xs s e
part_append xs ys s e l h =
    ap (take (e - s)) (drop_append s xs ys (omega (arith, l, h)))
    ∙ take_append (e - s) (drop s xs) ys (omega (arith, h, length-drop s xs))

-- The places below `n` that are not seen.
abbrev pub unseen : ℕ → List Bool → ℕ
unseen zero seen = 0
unseen (suc n) seen = (if get_or seen n false then 0 else 1) + unseen n seen

unseen_kept : (n id : ℕ) (seen : List Bool) → n ≤ id → unseen n (set seen id true) ≡ unseen n seen
unseen_kept zero id seen h = refl
unseen_kept (suc n) id seen h =
    ground (arith, get_or-set seen id true n false, unseen_kept n id seen (omega (arith, h)), h)

pub unseen-set :
    (n id : ℕ) (seen : List Bool)
    → get_or seen id false ≡ false
    → id < n
    → id < length seen
    → unseen n seen ≡ suc (unseen n (set seen id true))
unseen-set zero id seen f h l = absurd (omega (arith, h))
unseen-set (suc n) id seen f h l = elim (Bool-cases (n == id)) [
  | inl y ↦
      let same : n ≡ id = (==_iff n id).0 y in
      let free : get_or seen n false ≡ false = ap (λ i. get_or seen i false) same ∙ f in
      ground (
        arith,
        get_or-set seen id true n false,
        unseen_kept n id seen (omega (arith, same)),
        free,
        y,
        l,
      )
  | inr o ↦
      ground
        (arith, get_or-set seen id true n false, unseen-set n id seen f (ground (arith, h, o)) l, o)
]

abbrev pub is_seen : Walk → ℕ → Bool
is_seen w k = get_or w.seen k false

abbrev pub start_of : Walk → ℕ → ℕ
start_of w k = get_or w.start k 0

abbrev pub end_of : Walk → ℕ → ℕ
end_of w k = get_or w.end k 0

module _ (base : Base) where
  -- The order lists what is seen, each record once, and the columns are as long as the records.
  pub record IsValid (w : Walk) : Type 0 where
    pub listed : (k : ℕ) → is_seen w k ≡ member k w.order
    pub inside : (k : ℕ) → is_seen w k ≡ true → k < record_count base
    pub counted : length w.order + unseen (record_count base) w.seen ≡ record_count base
    pub seen_length : length w.seen ≡ record_count base
    pub start_length : length w.start ≡ record_count base
    pub end_length : length w.end ≡ record_count base

  -- With a record its parent is seen.
  unfoldable pub UpClosed : Walk → Type 0
  UpClosed w =
      (p k : ℕ)
      → p < record_count base
      → member k (child_ids_for_record base p) ≡ true
      → is_seen w k ≡ true
      → is_seen w p ≡ true

  -- The parents of a record are seen, if it has any.
  abbrev pub ParentsSeen : Walk → ℕ → Type 0
  ParentsSeen w id =
      (p : ℕ)
      → p < record_count base
      → member id (child_ids_for_record base p) ≡ true
      → is_seen w p ≡ true

  -- The range of the record is its subtree.
  pub record IsDone (w : Walk) (k : ℕ) : Type 0 where
    pub starts : start_of w k < end_of w k
    pub ends : end_of w k ≤ length w.order
    pub below :
        (x : ℕ) → (member x (part w.order (start_of w k) (end_of w k)) ≡ true) ↔ Below base k x

  -- What leads from one state to another: records that come from `From`, all done, with their children.
  pub record Walked (From : ℕ → Type 0) (w after : Walk) : Type 0 where
    pub new : List ℕ
    pub grown : after.order ≡ w.order ++ new
    pub fresh : (k : ℕ) → member k new ≡ true → is_seen w k ≡ false
    pub origin : (k : ℕ) → member k new ≡ true → From k
    pub closed :
        (k c : ℕ)
        → member k new ≡ true
        → member c (child_ids_for_record base k) ≡ true
        → c < record_count base
        → is_seen after c ≡ true
    pub done : (k : ℕ) → member k new ≡ true → IsDone after k
    pub kept :
        (k : ℕ)
        → is_seen w k ≡ true
        → (start_of after k ≡ start_of w k) × (end_of after k ≡ end_of w k)
    pub valid : IsValid after
    pub up : UpClosed after

  module _ (From : ℕ → Type 0) (w after : Walk) (v : IsValid w) (d : Walked From w after) where
    pub seen_after : (k : ℕ) → is_seen after k ≡ (is_seen w k || member k d.new)
    seen_after k =
        d.valid.listed k
        ∙ ap (member k) d.grown
        ∙ member-append w.order d.new k
        ∙ ap (λ b. b || member k d.new) (sym (v.listed k))

    pub IsDone-later : (k : ℕ) → is_seen w k ≡ true → IsDone w k → IsDone after k
    IsDone-later k s f =
        let (a, b) = d.kept k s in
        let same : part after.order (start_of after k) (end_of after k)
            ≡ part w.order (start_of w k) (end_of w k) =
          ap (λ o. part o (start_of after k) (end_of after k)) d.grown
          ∙ rw (a, b)
              (part_append w.order d.new (start_of w k) (end_of w k) (omega (arith, f.starts))
                f.ends) in
        record {
          starts = rw (a, b) f.starts;
          ends = rw (b, d.grown) (omega (arith, f.ends, length-append w.order d.new));
          below = λ x. (
            λ h. (f.below x).0 (ap (member x) (sym same) ∙ h),
            λ h. ap (member x) same ∙ (f.below x).1 h,
          );
        }

  pub walked_none : (From : ℕ → Type 0) (w : Walk) → IsValid w → UpClosed w → Walked From w w
  walked_none From w v u = record {
    new = [];
    grown = sym (append-nil w.order);
    fresh = λ k h. absurd (ground (arith, h));
    origin = λ k h. absurd (ground (arith, h));
    closed = λ k c h m b. absurd (ground (arith, h));
    done = λ k h. absurd (ground (arith, h));
    kept = λ k s. (refl, refl);
    valid = v;
    up = u;
  }

  pub walked_both :
      (From : ℕ → Type 0) (w mid after : Walk)
      → IsValid w
      → Walked From w mid
      → Walked From mid after
      → Walked From w after
  walked_both From w mid after v a b =
      let either : (k : ℕ)
          → member k (a.new ++ b.new) ≡ true
          → (member k a.new ≡ true) ⊎ (member k b.new ≡ true) =
        λ k h. elim (Bool-cases (member k a.new)) [
          | inl y ↦ inl y
          | inr n ↦ inr (ground (arith, h, n, member-append a.new b.new k))
        ] in
      let at_mid = seen_after From w mid v a in
      let at_end = seen_after From mid after a.valid b in
      record {
        new = a.new ++ b.new;
        grown = b.grown ∙ ap (λ o. o ++ b.new) a.grown ∙ append_assoc w.order a.new b.new;
        fresh = λ k h. elim (either k h) [
          | inl y ↦ a.fresh k y
          | inr y ↦ ground (arith, b.fresh k y, at_mid k)
        ];
        origin = λ k h. elim (either k h) [ inl y ↦ a.origin k y | inr y ↦ b.origin k y ];
        closed = λ k c h m l. elim (either k h) [
          | inl y ↦ ground (arith, a.closed k c y m l, at_end c)
          | inr y ↦ b.closed k c y m l
        ];
        done = λ k h. elim (either k h) [
          | inl y ↦
              IsDone-later From mid after a.valid b k (ground (arith, at_mid k, y)) (a.done k y)
          | inr y ↦ b.done k y
        ];
        kept = λ k s.
            let (p, q) = a.kept k s in
            let (r, t) = b.kept k (ground (arith, at_mid k, s)) in (r ∙ p, t ∙ q);
        valid = b.valid;
        up = b.up;
      }

  pub walked_from :
      (From Source : ℕ → Type 0) (w after : Walk)
      → ((k : ℕ) → From k → Source k)
      → Walked From w after
      → Walked Source w after
  walked_from From Source w after f d = record {
    new = d.new;
    grown = d.grown;
    fresh = d.fresh;
    origin = λ k h. f k (d.origin k h);
    closed = d.closed;
    done = d.done;
    kept = d.kept;
    valid = d.valid;
    up = d.up;
  }
