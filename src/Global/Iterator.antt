-- ===== src/Global/Iterator.antt =====
-- cmd/seekfs/global_iterators.go: the interface `globalIDIterator`, and its contract.
use seekfs.Common.{ℕ, ◌≤◌, ◌≡◌, Option, List, length, head?, tail}
use seekfs.Global.Id.{GlobalRecordId, Ascending, drop_before}

-- An iterator whose state is `S`. A call returns the new state; `(id, ok)` is an option.
-- `budget` is not in the source: it bounds how many ids are left, and is the loops' fuel.
pub record Iterator (S : Type 0) : Type 0 where
  pub next : S → S × Option GlobalRecordId
  pub seek_ge : GlobalRecordId → S → S × Option GlobalRecordId
  pub count_hint : S → ℕ
  pub budget : S → ℕ

-- What a caller of `Next` relies on: `Holds s l` says that `s` has still to return `l`.
pub record Forward {S : Type 0} (I : Iterator S) : Type 1 where
  pub Holds : S → List GlobalRecordId → Type 0
  pub ascending : (s : S) (l : List GlobalRecordId) → Holds s l → Ascending l
  pub within : (s : S) (l : List GlobalRecordId) → Holds s l → length l ≤ I.budget s
  pub next_result : (s : S) (l : List GlobalRecordId) → Holds s l → (I.next s).1 ≡ head? l
  pub next_state : (s : S) (l : List GlobalRecordId) → Holds s l → Holds (I.next s).0 (tail l)

-- What a caller of `SeekGE` relies on: it skips the ids before the target, and no other.
pub record Seeks {S : Type 0} (I : Iterator S) (c : Forward I) : Type 0 where
  pub seek_result :
      (t : GlobalRecordId) (s : S) (l : List GlobalRecordId)
      → c.Holds s l
      → (I.seek_ge t s).1 ≡ head? (drop_before t l)
  pub seek_state :
      (t : GlobalRecordId) (s : S) (l : List GlobalRecordId)
      → c.Holds s l
      → c.Holds (I.seek_ge t s).0 (tail (drop_before t l))
