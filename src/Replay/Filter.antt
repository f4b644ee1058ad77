-- ===== src/Replay/Filter.antt =====
-- cmd/seekfs/service_replay.go: `filterOwnedReplayChanges` against the history of the changes.
use seekfs.Common.{
  ℕ, ◌≡◌, refl, sym, ap, subst, ◌∙◌, Bool, Bool-cases, true, false, ◌&&◌, ◌||◌, not, inl, inr, List,
  [], ◌∷◌, ◌==◌, ==_iff, if◌then◌else◌, arith,
}
use seekfs.Wal.Batch.{UsnChange}
use seekfs.Packed.Bits.{test_bit}
use seekfs.Replay.BaseIds.{member}
use seekfs.Replay.Volume.{Base}
use seekfs.Replay.Owned.{
  has_any, with_frn, note_owned_child_dir, retire_owned_dir, owned_replay_parent,
  consume_owned_replay_change, filter_loop, filter_owned_replay_changes,
}
use seekfs.Trigram.Kept.{member-filter}

module _ (base : Base) (dynamic : List ℕ) where
  -- The directory holds the program's own files, of which `inside` says those that were not listed at the
  -- start.
  abbrev pub holds_own : (ℕ → Bool) → ℕ → Bool
  holds_own inside parent =
      not (parent == 0) && (member parent base.owned_dir_frns || inside parent)

  -- What a change makes of a reference: a directory that is created in, or renamed into, an own directory
  -- is one; a directory that is deleted or renamed in one, and what is seen outside of them, is none.
  -- Of an attribute, bit 4 is a directory's; of a reason, 8, 9, 12 and 13 are the creation, the deletion, and
  -- the old and the new name of a renaming.
  abbrev pub now_inside : (ℕ → Bool) → UsnChange → ℕ → Bool
  now_inside inside c f =
      if not (f == c.frn) || (c.frn == 0)
      then inside f
      else if not (holds_own inside c.parent_frn)
      then false
      else if not (test_bit c.attr 4)
      then inside f
      else if test_bit c.reason 8 || test_bit c.reason 13
      then true
      else if test_bit c.reason 9 || test_bit c.reason 12
      then false
      else inside f

  -- The directories that are own ones by the changes so far, the last change first.
  abbrev pub inside_after : List UsnChange → ℕ → Bool
  inside_after [] f = member f dynamic
  inside_after (c ∷ earlier) f = now_inside (inside_after earlier) c f

  -- The changes that stay: those of the reference 0, and those whose parent is no own directory by then.
  abbrev pub outside : List UsnChange → List UsnChange → List UsnChange
  outside earlier [] = []
  outside earlier (c ∷ changes) =
      let rest = outside (c ∷ earlier) changes in
      if not (c.frn == 0) && holds_own (inside_after earlier) c.parent_frn then rest else c ∷ rest

  -- The list of the dynamic directories says what the history says.
  Tracks : List UsnChange → List ℕ → Type 0
  Tracks earlier set = (f : ℕ) → member f set ≡ inside_after earlier f

  owned_same :
      (earlier : List UsnChange) (set : List ℕ) (parent : ℕ)
      → Tracks earlier set
      → owned_replay_parent base set parent ≡ holds_own (inside_after earlier) parent
  unfolding Tracks owned_replay_parent
  owned_same earlier set parent t = ground (arith, t parent)

  member-with_frn :
      (k : ℕ) (set : List ℕ) (f : ℕ) → member f (with_frn k set) ≡ (f == k || member f set)
  member-with_frn k set f = elim (Bool-cases (member k set)) [
    | inr n ↦ rw n refl
    | inl y ↦ rw y (elim (Bool-cases (f == k)) [
      | inl e ↦ rw e (ap (λ z. member z set) ((==_iff f k).0 e) ∙ y)
      | inr e ↦ rw e refl
    ])
  ]

  noted_same :
      (earlier : List UsnChange) (set : List ℕ) (c : UsnChange)
      → Tracks earlier set
      → (c.frn == 0) ≡ false
      → holds_own (inside_after earlier) c.parent_frn ≡ true
      → Tracks (c ∷ earlier) (note_owned_child_dir set c)
  unfolding Tracks note_owned_child_dir
  noted_same earlier set c t z h f =
      rw (z, h)
        (ground
          (arith, t f, member-with_frn c.frn set f, member-filter (λ x. not (x == c.frn)) set f))

  retired_same :
      (earlier : List UsnChange) (set : List ℕ) (c : UsnChange)
      → Tracks earlier set
      → (c.frn == 0) ≡ false
      → holds_own (inside_after earlier) c.parent_frn ≡ false
      → Tracks (c ∷ earlier) (if has_any set then retire_owned_dir set c.frn else set)
  unfolding Tracks retire_owned_dir
  retired_same earlier [] c t z h f = rw (z, h) (ground (arith, t f))
  retired_same earlier (x ∷ set) c t z h f =
      rw (z, h) (ground (arith, t f, member-filter (λ y. not (y == c.frn)) (x ∷ set) f))

  -- One change: whether it is taken out, and the set behind it.
  record Follows (earlier : List UsnChange) (c : UsnChange) (r : Bool × List ℕ) : Type 0 where
    consumed : r.0 ≡ (not (c.frn == 0) && holds_own (inside_after earlier) c.parent_frn)
    tracked : Tracks (c ∷ earlier) r.1

  consume-Follows :
      (earlier : List UsnChange) (set : List ℕ) (c : UsnChange)
      → Tracks earlier set
      → Follows earlier c (consume_owned_replay_change base set c)
  unfolding consume_owned_replay_change Tracks
  consume-Follows earlier set c t =
      let same = owned_same earlier set c.parent_frn t in
      elim (Bool-cases (c.frn == 0)) [
        | inl y ↦ rw y (record { consumed = rw y refl; tracked = λ f. ground (arith, y, t f) })
        | inr z ↦ elim (Bool-cases (holds_own (inside_after earlier) c.parent_frn)) [
          | inl y ↦
              rw (z, same, y)
                (record { consumed = rw (z, y) refl; tracked = noted_same earlier set c t z y })
          | inr n ↦
              let retired = retired_same earlier set c t z n in
              rw (z, same, n)
                (elim (Bool-cases (has_any set)) [
                  | inl a ↦ rw a (record {
                    consumed = rw (z, n) refl;
                    tracked = subst (Tracks (c ∷ earlier)) (rw a refl) retired;
                  })
                  | inr a ↦ rw a (record {
                    consumed = rw (z, n) refl;
                    tracked = subst (Tracks (c ∷ earlier)) (rw a refl) retired;
                  })
                ])
        ]
      ]

  -- The changes behind others, the last first.
  abbrev pub behind : List UsnChange → List UsnChange → List UsnChange
  behind earlier [] = earlier
  behind earlier (c ∷ changes) = behind (c ∷ earlier) changes

  filter_loop-outside :
      (earlier changes : List UsnChange) (set : List ℕ)
      → Tracks earlier set
      → ((filter_loop base set changes).0 ≡ outside earlier changes)
        × Tracks (behind earlier changes) (filter_loop base set changes).1
  unfolding filter_loop
  filter_loop-outside earlier [] set t = (refl, t)
  filter_loop-outside earlier (c ∷ changes) set t =
      let step = consume-Follows earlier set c t in
      let (consumed, next) = consume_owned_replay_change base set c in
      let (kept, tracked) = filter_loop-outside (c ∷ earlier) changes next step.tracked in
      elim (Bool-cases consumed) [
        | inl y ↦
            let taken : (not (c.frn == 0) && holds_own (inside_after earlier) c.parent_frn) ≡ true =
              sym step.consumed ∙ y in
            rw (y, taken) (kept, tracked)
        | inr n ↦
            let stays : (not (c.frn == 0) && holds_own (inside_after earlier) c.parent_frn)
                ≡ false =
              sym step.consumed ∙ n in
            rw (n, stays) (ap (λ cs. c ∷ cs) kept, tracked)
      ]

no_member : (f : ℕ) (xs : List ℕ) → has_any xs ≡ false → member f xs ≡ false
no_member f [] h = refl
no_member f (x ∷ xs) h = cc

module _ (base : Base) where
  not_consumed :
      (c : UsnChange)
      → has_any base.owned_dir_frns ≡ false
      → consume_owned_replay_change base [] c ≡ (false, [])
  unfolding consume_owned_replay_change owned_replay_parent
  not_consumed c h =
      let none_owned = no_member c.parent_frn base.owned_dir_frns h in
      elim (Bool-cases (c.frn == 0)) [
        | inl y ↦ rw y refl
        | inr z ↦ elim (Bool-cases (c.parent_frn == 0)) [
          | inl y ↦ rw (z, y) refl
          | inr p ↦ rw (z, p, none_owned) refl
        ]
      ]

  nothing_owned :
      (changes : List UsnChange)
      → has_any base.owned_dir_frns ≡ false
      → filter_loop base [] changes ≡ (changes, [])
  unfolding filter_loop consume_owned_replay_change owned_replay_parent
  nothing_owned [] h = refl
  nothing_owned (c ∷ changes) h =
      let one : consume_owned_replay_change base [] c ≡ (false, []) = not_consumed c h in
      rw (one, nothing_owned changes h) refl

  -- The early return, where nothing is owned, gives what the loop gives.
  early_return :
      (dynamic : List ℕ) (changes : List UsnChange)
      → filter_owned_replay_changes base dynamic changes ≡ filter_loop base dynamic changes
  unfolding filter_owned_replay_changes
  early_return [] changes = elim (Bool-cases (has_any base.owned_dir_frns)) [
    | inl y ↦ rw y refl
    | inr n ↦ rw n (sym (nothing_owned changes n))
  ]
  early_return (d ∷ dynamic) changes = elim (Bool-cases (has_any base.owned_dir_frns)) [
    | inl y ↦ rw y refl
    | inr n ↦ rw n refl
  ]

  -- The filter keeps exactly the changes of the reference 0 and those whose parent is, by the changes before
  -- it, no directory of the program's own, whether one that was listed at the start or one that was found
  -- in such a directory since; and the set that it leaves is that of the directories found by all of them.
  pub filter_owned_replay_changes_lem :
      (dynamic : List ℕ) (changes : List UsnChange)
      → ((filter_owned_replay_changes base dynamic changes).0 ≡ outside base dynamic [] changes)
        × ((f : ℕ)
            → member f (filter_owned_replay_changes base dynamic changes).1
              ≡ inside_after base dynamic (behind base dynamic [] changes) f)
  unfolding Tracks
  filter_owned_replay_changes_lem dynamic changes =
      rw (early_return dynamic changes)
        (filter_loop-outside base dynamic [] changes dynamic (λ f. refl))
