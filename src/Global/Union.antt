-- ===== src/Global/Union.antt =====
-- What a merge is to return: the ids of several ascending lists, each once, in order.
use seekfs.Common.{
  ℕ, suc, ◌+◌, ◌≤◌, ◌≡◌, ◌⊎◌, refl, sym, ap, subst, ◌∙◌, Bool, true, false, not, ◌&&◌, ◌||◌,
  Bool-cases, inl, inr, List, [], ◌∷◌, map, arith, if◌then◌else◌, length, All, All-map_pred,
}
use seekfs.Global.Id.{GlobalRecordId, Before, before, Ascending, asymm, before_irrefl}
use seekfs.Global.Sets.{
  same, contains, contains-All, same_self, same_sym, same_eq, contains_front, contains_at_front,
  contains-nil,
}

unfoldable pub contains_any : GlobalRecordId → List (List GlobalRecordId) → Bool
contains_any z [] = false
contains_any z (l ∷ ls) = contains z l || contains_any z ls

pub record IsUnion (l : List GlobalRecordId) (ls : List (List GlobalRecordId)) : Type 0 where
  pub order : Ascending l
  pub orders : All Ascending ls
  pub same_ids : (z : GlobalRecordId) → contains z l ≡ contains_any z ls

-- The list without its head, where that is `x`.
unfoldable pub behead : GlobalRecordId → List GlobalRecordId → List GlobalRecordId
behead x [] = []
behead x (y ∷ ys) = if same y x then ys else y ∷ ys

unfoldable pub total : List (List GlobalRecordId) → ℕ
total [] = 0
total (l ∷ ls) = length l + total ls

-- No id of `l` comes before `x`.
abbrev pub From : GlobalRecordId → List GlobalRecordId → Type 0
From x l = (z : GlobalRecordId) → contains z l ≡ true → before z x ≡ false

abbrev pub FromAll : GlobalRecordId → List (List GlobalRecordId) → Type 0
FromAll x ls = (z : GlobalRecordId) → contains_any z ls ≡ true → before z x ≡ false

pub FromAll-head :
    (x : GlobalRecordId) (l : List GlobalRecordId) (ls : List (List GlobalRecordId))
    → FromAll x (l ∷ ls)
    → From x l
unfolding contains_any
FromAll-head x l ls h z e = h z (rw e)

pub FromAll-tail :
    (x : GlobalRecordId) (l : List GlobalRecordId) (ls : List (List GlobalRecordId))
    → FromAll x (l ∷ ls)
    → FromAll x ls
unfolding contains_any
FromAll-tail x l ls h z e = h z (ground (arith, e))

pub contains_self : (x : GlobalRecordId) (l : List GlobalRecordId) → contains x (x ∷ l) ≡ true
unfolding contains
contains_self x l = rw (same_self x)

pub contains_tail :
    (z y : GlobalRecordId) (ys : List GlobalRecordId)
    → Ascending (y ∷ ys)
    → contains z ys ≡ contains z (y ∷ ys) && not (same z y)
unfolding contains
contains_tail z y ys asc = elim (Bool-cases (same z y)) [
  | inl e ↦
      let gone =
        subst (λ w. contains w ys ≡ false) (sym (same_eq z y e)) (contains_front y ys asc.0) in
      ground (arith, gone, e)
  | inr e ↦ ground (arith, e)
]

-- The head of a list that starts from `x` is `x`, or `x` is not in the list.
pub contains_first :
    (x y : GlobalRecordId) (ys : List GlobalRecordId)
    → Ascending (y ∷ ys)
    → From x (y ∷ ys)
    → contains x (y ∷ ys) ≡ same y x
contains_first x y ys asc f = contains_at_front x y ys (f y (contains_self y ys)) asc ∙ same_sym x y

module _ (x : GlobalRecordId) where
  -- With `x` the least id, beheading removes `x` and nothing else.
  pub contains-behead :
      (z : GlobalRecordId) (l : List GlobalRecordId)
      → Ascending l
      → From x l
      → contains z (behead x l) ≡ contains z l && not (same z x)
  unfolding behead
  contains-behead z [] asc f = rw contains-nil
  contains-behead z (y ∷ ys) asc f = elim (Bool-cases (same y x)) [
    | inl e ↦ rw e (
        subst (λ w. contains z ys ≡ contains z (y ∷ ys) && not (same z w)) (same_eq y x e)
          (contains_tail z y ys asc))
    | inr e ↦ rw e (other e (Bool-cases (same z x)))
  ]
    where
      other :
          same y x ≡ false
          → (same z x ≡ true) ⊎ (same z x ≡ false)
          → contains z (y ∷ ys) ≡ contains z (y ∷ ys) && not (same z x)
      other e (inl s) =
          let gone =
            subst (λ w. contains w (y ∷ ys) ≡ false) (sym (same_eq z x s))
              (contains_first x y ys asc f ∙ e) in
          ground (arith, gone, s)
      other e (inr s) = ground (arith, s)

  pub contains_any-behead :
      (z : GlobalRecordId) (ls : List (List GlobalRecordId))
      → All Ascending ls
      → FromAll x ls
      → contains_any z (map (behead x) ls) ≡ contains_any z ls && not (same z x)
  unfolding contains_any
  contains_any-behead z [] asc f = refl
  contains_any-behead z (l ∷ ls) asc f = ground (
    arith,
    contains-behead z l asc.0 (FromAll-head x l ls f),
    contains_any-behead z ls asc.1 (FromAll-tail x l ls f),
  )

  behead-Ascending : (l : List GlobalRecordId) → Ascending l → Ascending (behead x l)
  unfolding behead
  behead-Ascending [] asc = asc
  behead-Ascending (y ∷ ys) asc = elim (same y x) as (λ b. Ascending (if b then ys else y ∷ ys)) [
    | true ↦ asc.1
    | false ↦ asc
  ]

  pub map-behead-Ascending :
      (ls : List (List GlobalRecordId)) → All Ascending ls → All Ascending (map (behead x) ls)
  map-behead-Ascending [] asc = tt
  map-behead-Ascending (l ∷ ls) asc = (behead-Ascending l asc.0, map-behead-Ascending ls asc.1)

  length-behead : (l : List GlobalRecordId) → length (behead x l) ≤ length l
  unfolding behead
  length-behead [] = omega arith
  length-behead (y ∷ ys) = ground arith

  total-behead : (ls : List (List GlobalRecordId)) → total (map (behead x) ls) ≤ total ls
  unfolding total
  total-behead [] = omega arith
  total-behead (l ∷ ls) = omega (arith, length-behead l, total-behead ls)

  length-behead_in :
      (l : List GlobalRecordId)
      → Ascending l
      → From x l
      → contains x l ≡ true
      → suc (length (behead x l)) ≤ length l
  unfolding behead
  length-behead_in [] asc f e = cc (contains-nil x, e)
  length-behead_in (y ∷ ys) asc f e = ground (arith, contains_first x y ys asc f, e)

  -- A beheading takes an id away, where `x` is there.
  pub total-behead_in :
      (ls : List (List GlobalRecordId))
      → All Ascending ls
      → FromAll x ls
      → contains_any x ls ≡ true
      → suc (total (map (behead x) ls)) ≤ total ls
  unfolding total contains_any
  total-behead_in [] asc f e = cc e
  total-behead_in (l ∷ ls) asc f e = elim (Bool-cases (contains x l)) [
    | inl here ↦
        omega (arith, length-behead_in l asc.0 (FromAll-head x l ls f) here, total-behead ls)
    | inr h ↦
        let later : contains_any x ls ≡ true = rw h at e in
        omega (arith, length-behead l, total-behead_in ls asc.1 (FromAll-tail x l ls f) later)
  ]

-- The head of a union is the least of all ids.
pub IsUnion-From :
    (x : GlobalRecordId) (xs : List GlobalRecordId) (ls : List (List GlobalRecordId))
    → IsUnion (x ∷ xs) ls
    → FromAll x ls
IsUnion-From x xs ls u z e =
    contains-All (λ w. before w x ≡ false) z (x ∷ xs)
      (before_irrefl x, All-map_pred (Before x) _ (λ w h. asymm x w h) xs u.order.0)
      (u.same_ids z ∙ e)

pub IsUnion-tail :
    (x : GlobalRecordId) (xs : List GlobalRecordId) (ls : List (List GlobalRecordId))
    → IsUnion (x ∷ xs) ls
    → IsUnion xs (map (behead x) ls)
IsUnion-tail x xs ls u = record {
  order = u.order.1;
  orders = map-behead-Ascending x ls u.orders;
  same_ids = λ z.
      contains_tail z x xs u.order
      ∙ ap (λ b. b && not (same z x)) (u.same_ids z)
      ∙ sym (contains_any-behead x z ls u.orders (IsUnion-From x xs ls u));
}

pub length-union :
    (l : List GlobalRecordId) (ls : List (List GlobalRecordId)) → IsUnion l ls → length l ≤ total ls
length-union [] ls u = omega arith
length-union (x ∷ xs) ls u = omega (
  arith,
  length-union xs (map (behead x) ls) (IsUnion-tail x xs ls u),
  total-behead_in x ls u.orders (IsUnion-From x xs ls u) (sym (u.same_ids x) ∙ contains_self x xs),
)

pub contains_any-nil : (z : GlobalRecordId) → contains_any z [] ≡ false
unfolding contains_any
contains_any-nil z = refl

pub contains_any-tail :
    (z : GlobalRecordId) (l : List GlobalRecordId) (ls : List (List GlobalRecordId))
    → contains_any z (l ∷ ls) ≡ false
    → contains_any z ls ≡ false
unfolding contains_any
contains_any-tail z l ls e = ground (arith, e)

pub contains_any-head :
    (z : GlobalRecordId) (l : List GlobalRecordId) (ls : List (List GlobalRecordId))
    → contains_any z (l ∷ ls) ≡ false
    → contains z l ≡ false
unfolding contains_any
contains_any-head z l ls e = ground (arith, e)

pub contains_any-skip :
    (z : GlobalRecordId) (l : List GlobalRecordId) (ls : List (List GlobalRecordId))
    → contains z l ≡ false
    → contains_any z (l ∷ ls) ≡ contains_any z ls
unfolding contains_any
contains_any-skip z l ls e = rw e

pub contains_any-here :
    (y : GlobalRecordId) (l : List GlobalRecordId) (ls : List (List GlobalRecordId))
    → contains_any y ((y ∷ l) ∷ ls) ≡ true
unfolding contains_any
contains_any-here y l ls = rw (contains_self y l)
