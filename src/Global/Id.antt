-- ===== src/Global/Id.antt =====
-- cmd/seekfs/global_iterators.go: a record's id across volumes, and the order of ids.
use Prim.Native.Nat.{Ordering}
use seekfs.Common.{
  ℕ, ◌≡◌, refl, ◌⊎◌, inl, inr, Bool, true, false, not, List, [], ◌∷◌, tail, arith, ltb, ◌==◌,
  if◌then◌else◌, filter, All, All-filter, All-map_pred,
}

pub record GlobalRecordId : Type 0 where
  pub volume : ℕ
  pub local : ℕ

-- -1, 0 and 1 of the source are lt, eq and gt.
unfoldable pub compare_global_record_id : GlobalRecordId → GlobalRecordId → Ordering
compare_global_record_id a b =
    if not (a.volume == b.volume)
    then if ltb a.volume b.volume then Ordering.lt else Ordering.gt
    else if not (a.local == b.local)
    then if ltb a.local b.local then Ordering.lt else Ordering.gt
    else Ordering.eq

-- `compareGlobalRecordID(a, b) < 0`
unfoldable pub before : GlobalRecordId → GlobalRecordId → Bool
before a b = elim (compare_global_record_id a b) [
  | Ordering.lt ↦ true
  | Ordering.eq ↦ false
  | _ ↦ false
]

abbrev pub Before : GlobalRecordId → GlobalRecordId → Type 0
Before a b = before a b ≡ true

pub Before-trans : (a b c : GlobalRecordId) → Before a b → Before b c → Before a c
unfolding before compare_global_record_id
Before-trans a b c p q = ground arith

pub before_irrefl : (a : GlobalRecordId) → before a a ≡ false
unfolding before compare_global_record_id
before_irrefl a = ground arith

pub compare_eq : (a b : GlobalRecordId) → compare_global_record_id a b ≡ Ordering.eq → a ≡ b
unfolding compare_global_record_id
compare_eq a b h = ground arith

pub compare_lt : (a b : GlobalRecordId) → compare_global_record_id a b ≡ Ordering.lt → Before a b
unfolding before
compare_lt a b h = ground arith

pub compare_gt : (a b : GlobalRecordId) → compare_global_record_id a b ≡ Ordering.gt → Before b a
unfolding before compare_global_record_id
compare_gt a b h = ground arith

pub compare_cases :
    (a b : GlobalRecordId)
    → (compare_global_record_id a b ≡ Ordering.lt)
      ⊎ (compare_global_record_id a b ≡ Ordering.eq)
      ⊎ (compare_global_record_id a b ≡ Ordering.gt)
compare_cases a b = go (compare_global_record_id a b) refl
  where
    go :
        (o : Ordering)
        → compare_global_record_id a b ≡ o
        → (compare_global_record_id a b ≡ Ordering.lt)
          ⊎ (compare_global_record_id a b ≡ Ordering.eq)
          ⊎ (compare_global_record_id a b ≡ Ordering.gt)
    go Ordering.lt e = inl e
    go Ordering.eq e = inr (inl e)
    go Ordering.gt e = inr (inr e)

pub asymm : (a b : GlobalRecordId) → Before a b → before b a ≡ false
unfolding before compare_global_record_id
asymm a b h = ground arith

-- Strictly ascending: each id comes before every later one.
abbrev pub Ascending : List GlobalRecordId → Type 0
Ascending [] = Unit {0}
Ascending (x ∷ xs) = All (Before x) xs × Ascending xs

-- The ids from `t` on.
unfoldable pub drop_before : GlobalRecordId → List GlobalRecordId → List GlobalRecordId
drop_before t [] = []
drop_before t (x ∷ xs) = if before x t then drop_before t xs else x ∷ xs

pub Before-All :
    (a b : GlobalRecordId) (l : List GlobalRecordId)
    → Before a b
    → All (Before b) l
    → All (Before a) l
Before-All a b l h = All-map_pred (Before b) (Before a) (λ c. Before-trans a b c h) l

pub Ascending-tail : (l : List GlobalRecordId) → Ascending l → Ascending (tail l)
Ascending-tail [] h = h
Ascending-tail (x ∷ xs) h = h.1

pub Ascending-drop_before :
    (t : GlobalRecordId) (l : List GlobalRecordId) → Ascending l → Ascending (drop_before t l)
unfolding drop_before
Ascending-drop_before t [] h = h
Ascending-drop_before t (x ∷ xs) h =
    elim (before x t) as (λ b. Ascending (if b then drop_before t xs else x ∷ xs)) [
      | true ↦ Ascending-drop_before t xs h.1
      | false ↦ h
    ]

-- Ids that all stand behind an id which is not before `t` are not before `t` either.
pub drop_before_self :
    (t x : GlobalRecordId) (l : List GlobalRecordId)
    → All (Before x) l
    → before x t ≡ false
    → drop_before t l ≡ l
unfolding drop_before
drop_before_self t x [] h e = refl
drop_before_self t x (y ∷ ys) h e = ground (arith, Before-trans x y t)

pub Ascending-filter :
    (keep : GlobalRecordId → Bool) (l : List GlobalRecordId)
    → Ascending l
    → Ascending (filter keep l)
Ascending-filter keep [] h = h
Ascending-filter keep (x ∷ xs) h =
    let rest = Ascending-filter keep xs h.1 in
    let front = All-filter (Before x) keep xs h.0 in
    elim (keep x) as (λ b. Ascending (if b then x ∷ filter keep xs else filter keep xs)) [
      | true ↦ (front, rest)
      | false ↦ rest
    ]

pub neither : (a b : GlobalRecordId) → before a b ≡ false → before b a ≡ false → a ≡ b
unfolding before compare_global_record_id
neither a b h k = ground arith
