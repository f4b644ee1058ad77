-- ===== src/Global/Optional.antt =====
-- cmd/seekfs/global_iterators.go: a child that may be nil. Where the source guards a call by
-- `child != nil`, a missing child returns nothing.
use seekfs.Common.{
  ℕ, ◌≤◌, ◌≡◌, refl, ap, Option, none, some, List, [], ◌∷◌, head?, tail, arith, length,
}
use seekfs.Global.Id.{GlobalRecordId, Ascending, drop_before}
use seekfs.Global.Iterator.{Iterator, Forward, Seeks}

module _ {S : Type 0} (I : Iterator S) where
  optional_next : Option S → Option S × Option GlobalRecordId
  optional_next none = (none, none)
  optional_next (some s) = let (s', r) = I.next s in (some s', r)

  optional_seek_ge : GlobalRecordId → Option S → Option S × Option GlobalRecordId
  optional_seek_ge t none = (none, none)
  optional_seek_ge t (some s) = let (s', r) = I.seek_ge t s in (some s', r)

  optional_count_hint : Option S → ℕ
  optional_count_hint none = 0
  optional_count_hint (some s) = I.count_hint s

  optional_budget : Option S → ℕ
  optional_budget none = 0
  optional_budget (some s) = I.budget s

  unfoldable pub optional_iterator : Iterator (Option S)
  unfolding optional_next optional_seek_ge optional_count_hint optional_budget
  optional_iterator = record {
    next = optional_next;
    seek_ge = optional_seek_ge;
    count_hint = optional_count_hint;
    budget = optional_budget;
  }

  module _ (c : Forward I) where
    abbrev OptionalHolds : Option S → List GlobalRecordId → Type 0
    OptionalHolds none l = l ≡ []
    OptionalHolds (some s) l = c.Holds s l

    optional-Ascending : (s : Option S) (l : List GlobalRecordId) → OptionalHolds s l → Ascending l
    optional-Ascending none [] h = tt
    optional-Ascending none (x ∷ l) h = cc h
    optional-Ascending (some s) l h = c.ascending s l h

    optional_within :
        (s : Option S) (l : List GlobalRecordId) → OptionalHolds s l → length l ≤ optional_budget s
    unfolding optional_budget
    optional_within none l h = omega (arith, ap length h)
    optional_within (some s) l h = c.within s l h

    optional_next_result :
        (s : Option S) (l : List GlobalRecordId) → OptionalHolds s l → (optional_next s).1 ≡ head? l
    unfolding optional_next
    optional_next_result none l h = rw h
    optional_next_result (some s) l h = c.next_result s l h

    optional_next_state :
        (s : Option S) (l : List GlobalRecordId)
        → OptionalHolds s l
        → OptionalHolds (optional_next s).0 (tail l)
    unfolding optional_next
    optional_next_state none l h = rw h
    optional_next_state (some s) l h = c.next_state s l h

    pub optional_forward : Forward optional_iterator
    unfolding optional_iterator
    optional_forward = record {
      Holds = OptionalHolds;
      ascending = optional-Ascending;
      within = optional_within;
      next_result = optional_next_result;
      next_state = optional_next_state;
    }

    optional_seek_result :
        Seeks I c
        → (t : GlobalRecordId) (s : Option S) (l : List GlobalRecordId) → OptionalHolds s l
        → (optional_seek_ge t s).1 ≡ head? (drop_before t l)
    unfolding optional_seek_ge drop_before
    optional_seek_result k t none l h = rw h
    optional_seek_result k t (some s) l h = k.seek_result t s l h

    optional_seek_state :
        Seeks I c
        → (t : GlobalRecordId) (s : Option S) (l : List GlobalRecordId) → OptionalHolds s l
        → OptionalHolds (optional_seek_ge t s).0 (tail (drop_before t l))
    unfolding optional_seek_ge drop_before
    optional_seek_state k t none l h = rw h
    optional_seek_state k t (some s) l h = k.seek_state t s l h

    pub optional-Seeks : Seeks I c → Seeks optional_iterator optional_forward
    unfolding optional_iterator optional_forward
    optional-Seeks k = record {
      seek_result = optional_seek_result k;
      seek_state = optional_seek_state k;
    }

    pub optional_holds :
        (s : S) (l : List GlobalRecordId) → c.Holds s l → optional_forward.Holds (some s) l
    unfolding optional_forward
    optional_holds s l h = h

    pub optional_holds_nil : optional_forward.Holds none []
    unfolding optional_forward
    optional_holds_nil = refl
