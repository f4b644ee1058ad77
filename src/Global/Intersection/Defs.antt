-- ===== src/Global/Intersection/Defs.antt =====
-- cmd/seekfs/global_iterators.go: `globalIntersectionIterator`. A child that is nil is `none`, and
-- `(aID, aOK)` is one option.
use Prim.Native.Nat.{Ordering, min}
use seekfs.Common.{ℕ, zero, suc, ◌+◌, ◌==◌, if◌then◌else◌, Bool, true, false, Option, none, some}
use seekfs.Global.Id.{GlobalRecordId, compare_global_record_id}
use seekfs.Global.Iterator.{Iterator}

-- Hints are counts, so `positiveCountHint` changes none of them.
unfoldable pub min_positive_count_hint : ℕ → ℕ → ℕ
min_positive_count_hint a b = if a == 0 then b else if b == 0 then a else min a b

pub record Intersection (A B : Type 0) : Type 0 where
  pub a : Option A
  pub b : Option B
  pub a_id : Option GlobalRecordId
  pub b_id : Option GlobalRecordId
  pub initialized : Bool

unfoldable pub new_global_intersection_iterator :
    {A B : Type 0} → Option A → Option B → Intersection A B
new_global_intersection_iterator a b = record {
  a = a;
  b = b;
  a_id = none;
  b_id = none;
  initialized = false;
}

-- The state after `init`, with both children present.
abbrev pub running :
    {A B : Type 0} → A → B → Option GlobalRecordId → Option GlobalRecordId → Intersection A B
running a b i j = record { a = some a; b = some b; a_id = i; b_id = j; initialized = true }

module _ {A B : Type 0} (I : Iterator A) (J : Iterator B) where
  unfoldable pub count_hint : Intersection A B → ℕ
  unfolding min_positive_count_hint
  count_hint it = elim it.a [
    | none ↦ 0
    | some a ↦ elim it.b [
      | none ↦ 0
      | some b ↦ min_positive_count_hint (I.count_hint a) (J.count_hint b)
    ]
  ]

  -- `for it.aOK && it.bOK { switch compareGlobalRecordID(it.aID, it.bID) ... }`
  unfoldable pub loop :
      ℕ
      → A
      → B
      → Option GlobalRecordId
      → Option GlobalRecordId
      → Intersection A B × Option GlobalRecordId
  loop zero a b i j = (running a b i j, none)
  loop (suc f) a b none j = (running a b none j, none)
  loop (suc f) a b (some x) none = (running a b (some x) none, none)
  loop (suc f) a b (some x) (some y) = elim (compare_global_record_id x y) [
    | Ordering.eq ↦ let (a', i) = I.next a in let (b', j) = J.next b in (running a' b' i j, some x)
    | Ordering.lt ↦ let (a', i) = I.seek_ge y a in loop f a' b i (some y)
    | _ ↦ let (b', j) = J.seek_ge x b in loop f a b' (some x) j
  ]

  unfoldable pub fuel : A → B → ℕ
  fuel a b = I.budget a + J.budget b + 3

  -- `init`, then the loop.
  unfoldable pub start :
      Bool
      → A
      → B
      → Option GlobalRecordId
      → Option GlobalRecordId
      → Intersection A B × Option GlobalRecordId
  unfolding loop fuel
  start true a b i j = loop (fuel a b) a b i j
  start false a b i j =
      let (a', i') = I.next a in let (b', j') = J.next b in loop (fuel a' b') a' b' i' j'

  unfoldable pub next : Intersection A B → Intersection A B × Option GlobalRecordId
  unfolding start
  next it = elim it.a [
    | none ↦ (it, none)
    | some a ↦ elim it.b [ none ↦ (it, none) | some b ↦ start it.initialized a b it.a_id it.b_id ]
  ]

  -- Both children seek, whatever `a_id` and `b_id` hold.
  unfoldable pub seek_ge :
      GlobalRecordId → Intersection A B → Intersection A B × Option GlobalRecordId
  unfolding start
  seek_ge t it = elim it.a [
    | none ↦ (it, none)
    | some a ↦ elim it.b [
      | none ↦ (it, none)
      | some b ↦ let (a', i) = I.seek_ge t a in let (b', j) = J.seek_ge t b in start true a' b' i j
    ]
  ]

  unfoldable pub intersection_iterator : Iterator (Intersection A B)
  unfolding next seek_ge count_hint
  intersection_iterator = record {
    next = next;
    seek_ge = seek_ge;
    count_hint = count_hint;
    budget = λ it. elim it.a [ none ↦ 0 | some a ↦ suc (I.budget a) ];
  }
