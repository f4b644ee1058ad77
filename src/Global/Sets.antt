-- ===== src/Global/Sets.antt =====
-- What the set operators are to return: plain functions on lists of ids, and their laws.
use Prim.Native.Nat.{Ordering}
use seekfs.Common.{
  ◌≤◌, ◌≡◌, refl, sym, ap, ap₂, subst, ◌∙◌, Bool, true, false, not, ◌||◌, Bool-cases, inl, inr,
  some, ◌≢◌, List, [], ◌∷◌, head?, arith, if◌then◌else◌, length, filter, length-filter, All,
  All-filter, All-map_pred,
}
use seekfs.Global.Id.{
  GlobalRecordId, compare_global_record_id, Before, before, before_irrefl, asymm, Ascending,
  Ascending-filter, drop_before, Before-All,
}

pub same : GlobalRecordId → GlobalRecordId → Bool
same a b = elim (compare_global_record_id a b) [
  | Ordering.eq ↦ true
  | Ordering.lt ↦ false
  | _ ↦ false
]

unfoldable pub contains : GlobalRecordId → List GlobalRecordId → Bool
unfolding same
contains x [] = false
contains x (y ∷ ys) = same x y || contains x ys

-- The ids of `a` that stand in `b`, and those that do not.
unfoldable pub common : List GlobalRecordId → List GlobalRecordId → List GlobalRecordId
common a b = filter (λ x. contains x b) a

unfoldable pub minus : List GlobalRecordId → List GlobalRecordId → List GlobalRecordId
minus a b = filter (λ x. not (contains x b)) a

pub same_self : (x : GlobalRecordId) → same x x ≡ true
unfolding same compare_global_record_id
same_self x = ground arith

pub same-Before : (x y : GlobalRecordId) → Before x y → same x y ≡ false
unfolding same before compare_global_record_id
same-Before x y h = ground arith

pub same_after : (x y : GlobalRecordId) → Before y x → same x y ≡ false
unfolding same before compare_global_record_id
same_after x y h = ground arith

-- An id before all of `l` is not in it.
pub contains_front :
    (x : GlobalRecordId) (l : List GlobalRecordId) → All (Before x) l → contains x l ≡ false
unfolding contains
contains_front x [] h = refl
contains_front x (y ∷ ys) h = ground (arith, same-Before x y h.0, contains_front x ys h.1)

same-before_left : (z y t : GlobalRecordId) → same z y ≡ true → before z t ≡ before y t
unfolding same before compare_global_record_id
same-before_left z y t h = ground arith

pub contains_head : (x : GlobalRecordId) (l : List GlobalRecordId) → contains x (x ∷ l) ≡ true
unfolding contains
contains_head x l = rw (same_self x)

pub contains_behind :
    (x z : GlobalRecordId) (l : List GlobalRecordId)
    → Before x z
    → contains z (x ∷ l) ≡ contains z l
unfolding contains
contains_behind x z l h = rw (same_after z x h)

-- Dropping what is before `t` loses no id from `t` on.
pub contains-drop_before :
    (t z : GlobalRecordId) (l : List GlobalRecordId)
    → before z t ≡ false
    → contains z (drop_before t l) ≡ contains z l
unfolding contains drop_before
contains-drop_before t z [] h = refl
contains-drop_before t z (y ∷ ys) h = elim (Bool-cases (before y t)) [
  | inr e ↦ rw e
  | inl e ↦ elim (Bool-cases (same z y)) [
    | inl s ↦ cc (same-before_left z y t s, e, h)
    | inr s ↦ rw (e, s) (contains-drop_before t z ys h)
  ]
]

filter_congr {ℓ} :
    {A : Type ℓ} (p q : A → Bool) (l : List A) → All (λ x. p x ≡ q x) l → filter p l ≡ filter q l
filter_congr p q [] h = refl
filter_congr p q (x ∷ xs) h = ap₂ (λ b r. if b then x ∷ r else r) h.0 (filter_congr p q xs h.1)

pub filter-drop_before :
    (t : GlobalRecordId) (p : GlobalRecordId → Bool) (l : List GlobalRecordId)
    → ((z : GlobalRecordId) → Before z t → p z ≡ false)
    → filter p (drop_before t l) ≡ filter p l
unfolding drop_before
filter-drop_before t p [] h = refl
filter-drop_before t p (x ∷ xs) h = ground (arith, h x, filter-drop_before t p xs h)

pub length-drop_before :
    (t : GlobalRecordId) (l : List GlobalRecordId) → length (drop_before t l) ≤ length l
unfolding drop_before
length-drop_before t [] = omega arith
length-drop_before t (x ∷ xs) = ground (arith, length-drop_before t xs)

pub drop_before_head :
    (t x : GlobalRecordId) (l : List GlobalRecordId)
    → Before x t
    → drop_before t (x ∷ l) ≡ drop_before t l
unfolding drop_before
drop_before_head t x l h = rw h

-- The four steps of an intersection: one side is empty, both heads agree, or one is behind.
pub common-nil : (l : List GlobalRecordId) → common l [] ≡ []
unfolding common contains
common-nil [] = refl
common-nil (x ∷ xs) = common-nil xs

module _ (x y : GlobalRecordId) (xs ys : List GlobalRecordId) where
  pub common_lt :
      Before x y
      → Ascending (y ∷ ys)
      → common (drop_before y xs) (y ∷ ys) ≡ common (x ∷ xs) (y ∷ ys)
  unfolding common
  common_lt h asc = rw (← drop_before_head y x xs h) (
      filter-drop_before y (λ z. contains z (y ∷ ys)) (x ∷ xs)
        (λ z hz. contains_front z (y ∷ ys) (hz, Before-All z y ys hz asc.0)))

  pub common_gt :
      Before y x
      → Ascending (x ∷ xs)
      → common (x ∷ xs) (drop_before x ys) ≡ common (x ∷ xs) (y ∷ ys)
  unfolding common
  common_gt h asc =
      ap (λ r. common (x ∷ xs) r) (sym (drop_before_head x y ys h))
      ∙ (filter_congr _ _ (x ∷ xs) (
        contains-drop_before x x (y ∷ ys) (before_irrefl x),
        All-map_pred (Before x) _ (λ z hz. contains-drop_before x z (y ∷ ys) (asymm x z hz)) xs
            asc.0,
      ))

  pub common_eq : Ascending (x ∷ xs) → common (x ∷ xs) (x ∷ ys) ≡ x ∷ common xs ys
  unfolding common
  common_eq asc = rw (contains_head x ys) (
      ap (λ r. x ∷ r)
        (filter_congr _ _ xs
          (All-map_pred (Before x) _ (λ z hz. contains_behind x z ys hz) xs asc.0)))

-- The steps of an exclusion.
module _ (x : GlobalRecordId) (xs : List GlobalRecordId) where
  -- What is excluded before the head of the included ids does not matter.
  pub minus-drop_before :
      (e : List GlobalRecordId)
      → Ascending (x ∷ xs)
      → minus (x ∷ xs) (drop_before x e) ≡ minus (x ∷ xs) e
  unfolding minus
  minus-drop_before e asc = filter_congr _ _ (x ∷ xs) (
    ap not (contains-drop_before x x e (before_irrefl x)),
    All-map_pred (Before x) _ (λ z hz. ap not (contains-drop_before x z e (asymm x z hz))) xs asc.0,
  )

pub Ascending-common : (a b : List GlobalRecordId) → Ascending a → Ascending (common a b)
unfolding common
Ascending-common a b h = Ascending-filter (λ x. contains x b) a h

pub Ascending-minus : (a b : List GlobalRecordId) → Ascending a → Ascending (minus a b)
unfolding minus
Ascending-minus a b h = Ascending-filter (λ x. not (contains x b)) a h

pub length-common : (a b : List GlobalRecordId) → length (common a b) ≤ length a
unfolding common
length-common a b = length-filter (λ x. contains x b) a

pub length-minus : (a b : List GlobalRecordId) → length (minus a b) ≤ length a
unfolding minus
length-minus a b = length-filter (λ x. not (contains x b)) a

pub nil-common : (l : List GlobalRecordId) → common [] l ≡ []
unfolding common
nil-common l = refl

pub drop_before_twice :
    (t : GlobalRecordId) (l : List GlobalRecordId)
    → drop_before t (drop_before t l) ≡ drop_before t l
unfolding drop_before
drop_before_twice t [] = refl
drop_before_twice t (x ∷ xs) = ground (arith, drop_before_twice t xs)

pub same_else : (x y : GlobalRecordId) → before y x ≡ false → same x y ≡ false → Before x y
unfolding same before compare_global_record_id
same_else x y h s = ground arith

-- `l` stands from `x` on: looking at its head decides whether `x` is in it.
pub contains_at_front :
    (x : GlobalRecordId) (y : GlobalRecordId) (l : List GlobalRecordId)
    → before y x ≡ false
    → Ascending (y ∷ l)
    → contains x (y ∷ l) ≡ same x y
unfolding contains
contains_at_front x y l h asc = elim (Bool-cases (same x y)) [
  | inl s ↦ rw s
  | inr s ↦ rw s (contains_front x l (Before-All x y l (same_else x y h s) asc.0))
]

module _ (x : GlobalRecordId) (xs e : List GlobalRecordId) where
  pub minus_in : contains x e ≡ true → minus (x ∷ xs) e ≡ minus xs e
  unfolding minus
  minus_in h = rw h

  pub minus_out : contains x e ≡ false → minus (x ∷ xs) e ≡ x ∷ minus xs e
  unfolding minus
  minus_out h = rw h

pub nil-minus : (l : List GlobalRecordId) → minus [] l ≡ []
unfolding minus
nil-minus l = refl

pub drop_before_nil : (t : GlobalRecordId) → drop_before t [] ≡ []
unfolding drop_before
drop_before_nil t = refl

pub drop_before_stay :
    (t x : GlobalRecordId) (l : List GlobalRecordId)
    → before x t ≡ false
    → drop_before t (x ∷ l) ≡ x ∷ l
unfolding drop_before
drop_before_stay t x l h = rw h

pub contains-nil : (x : GlobalRecordId) → contains x [] ≡ false
unfolding contains
contains-nil x = refl

pub same_eq : (x y : GlobalRecordId) → same x y ≡ true → x ≡ y
unfolding same compare_global_record_id
same_eq x y h = ground arith

pub same_sym : (x y : GlobalRecordId) → same x y ≡ same y x
unfolding same compare_global_record_id
same_sym x y = ground arith

-- What holds of all ids of a list holds of one that is in it.
pub contains-All :
    (P : GlobalRecordId → Type 0) (z : GlobalRecordId) (l : List GlobalRecordId)
    → All P l
    → contains z l ≡ true
    → P z
unfolding contains
contains-All P z [] h e = cc e
contains-All P z (y ∷ ys) h e = elim (Bool-cases (same z y)) [
  | inl s ↦ subst P (sym (same_eq z y s)) h.0
  | inr s ↦ contains-All P z ys h.1 (rw s at e)
]

All-drop_before :
    (P : GlobalRecordId → Type 0) (t : GlobalRecordId) (l : List GlobalRecordId)
    → All P l
    → All P (drop_before t l)
unfolding drop_before
All-drop_before P t [] h = h
All-drop_before P t (x ∷ xs) h =
    elim (before x t) as (λ b. All P (if b then drop_before t xs else x ∷ xs)) [
      | true ↦ All-drop_before P t xs h.1
      | false ↦ h
    ]

-- No id behind `x` in both lists is `x`.
pub common_behind :
    (t x : GlobalRecordId) (a b : List GlobalRecordId)
    → All (Before x) a
    → head? (common (drop_before t a) b) ≢ some x
unfolding common
common_behind t x a b h =
    front (filter (λ z. contains z b) (drop_before t a))
      (All-filter (Before x) _ (drop_before t a) (All-drop_before (Before x) t a h))
  where
    front : (l : List GlobalRecordId) → All (Before x) l → head? l ≢ some x
    front [] k e = cc e
    front (y ∷ ys) k e = cc (k.0, before_irrefl x)
