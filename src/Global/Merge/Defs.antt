-- ===== src/Global/Merge/Defs.antt =====
-- cmd/seekfs/global_iterators.go: `globalMergeIterator`. The slices `children`, `current` and `valid`
-- have one length: they are one list of slots, a child with the id that was read from it ahead.
use seekfs.Common.{ℕ, suc, ◌+◌, Option, none, some, List, [], ◌∷◌, if◌then◌else◌}
use seekfs.Global.Id.{GlobalRecordId, before}
use seekfs.Global.Iterator.{Iterator}
use seekfs.Global.Sets.{same}

abbrev pub Slot : Type 0 → Type 0
Slot S = S × Option GlobalRecordId

-- One round of the choice of `best`: a slot is kept unless its id is not below the best so far.
abbrev pub better : GlobalRecordId → Option GlobalRecordId → Option GlobalRecordId
better x none = some x
better x (some y) = if before x y then some x else some y

-- The choice of `best`: the least id read ahead.
unfoldable pub best : {S : Type 0} → Option GlobalRecordId → List (Slot S) → Option GlobalRecordId
best acc [] = acc
best acc ((s, none) ∷ slots) = best acc slots
best acc ((s, some x) ∷ slots) = best (better x acc) slots

module _ {S : Type 0} (I : Iterator S) where
  -- Children that are nil are left out, and the others are asked for their first id.
  unfoldable pub new_global_merge_iterator : List (Option S) → List (Slot S)
  new_global_merge_iterator [] = []
  new_global_merge_iterator (none ∷ children) = new_global_merge_iterator children
  new_global_merge_iterator (some s ∷ children) = I.next s ∷ new_global_merge_iterator children

  unfoldable pub count_hint : List (Slot S) → ℕ
  count_hint [] = 0
  count_hint ((s, none) ∷ slots) = count_hint slots
  count_hint ((s, some x) ∷ slots) = I.count_hint s + count_hint slots

  -- Each slot that holds `out` moves on.
  unfoldable pub advance : GlobalRecordId → Slot S → Slot S
  advance out (s, none) = (s, none)
  advance out (s, some x) = if same x out then I.next s else (s, some x)

  unfoldable pub advance_all : GlobalRecordId → List (Slot S) → List (Slot S)
  unfolding advance
  advance_all out [] = []
  advance_all out (slot ∷ slots) = advance out slot ∷ advance_all out slots

  unfoldable pub next : List (Slot S) → List (Slot S) × Option GlobalRecordId
  unfolding best advance_all
  next slots = elim (best none slots) [
    | none ↦ (slots, none)
    | some out ↦ (advance_all out slots, some out)
  ]

  -- Each slot whose id is before the target seeks.
  unfoldable pub seek_slot : GlobalRecordId → Slot S → Slot S
  seek_slot t (s, none) = (s, none)
  seek_slot t (s, some x) = if before x t then I.seek_ge t s else (s, some x)

  unfoldable pub seek_all : GlobalRecordId → List (Slot S) → List (Slot S)
  unfolding seek_slot
  seek_all t [] = []
  seek_all t (slot ∷ slots) = seek_slot t slot ∷ seek_all t slots

  unfoldable pub seek_ge : GlobalRecordId → List (Slot S) → List (Slot S) × Option GlobalRecordId
  unfolding next seek_all
  seek_ge t slots = next (seek_all t slots)

  unfoldable pub budget : List (Slot S) → ℕ
  budget [] = 0
  budget ((s, x) ∷ slots) = suc (I.budget s) + budget slots

  unfoldable pub merge_iterator : Iterator (List (Slot S))
  merge_iterator = record {
    next = next;
    seek_ge = seek_ge;
    count_hint = count_hint;
    budget = budget;
  }
