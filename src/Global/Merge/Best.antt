-- ===== src/Global/Merge/Best.antt =====
-- cmd/seekfs/global_iterators.go: the choice of `best` in `globalMergeIterator.Next`.
use seekfs.Common.{
  ◌≡◌, ◌⊎◌, refl, sym, ap, subst, ◌∙◌, true, false, Bool-cases, inl, inr, Option, none, some, List,
  [], ◌∷◌, head?, if◌then◌else◌, All,
}
use seekfs.Global.Id.{GlobalRecordId, before, neither, Ascending}
use seekfs.Global.Sets.{same, same_eq, contains, contains-nil}
use seekfs.Global.Union.{
  contains_any, FromAll, FromAll-head, FromAll-tail, contains_first, contains_self,
  contains_any-nil, contains_any-tail, contains_any-head, contains_any-skip, contains_any-here,
}
use seekfs.Global.Merge.Defs.{Slot, better, best}

-- A child's state with the ids that it and the id read ahead stand for.
abbrev pub Line : Type 0 → Type 0
Line S = S × List GlobalRecordId

-- What is known of the least id seen so far: it does not come before `x`.
abbrev pub NotBefore : GlobalRecordId → Option GlobalRecordId → Type 0
NotBefore x none = Unit {0}
NotBefore x (some y) = before y x ≡ false

better-NotBefore :
    (x y : GlobalRecordId) (acc : Option GlobalRecordId)
    → before y x ≡ false
    → NotBefore x acc
    → NotBefore x (better y acc)
better-NotBefore x y none h k = h
better-NotBefore x y (some w) h k =
    elim (before y w) as (λ b. NotBefore x (if b then some y else some w)) [ true ↦ h | false ↦ k ]

better_self :
    (x : GlobalRecordId) (acc : Option GlobalRecordId) → NotBefore x acc → better x acc ≡ some x
better_self x none k = refl
better_self x (some w) k = elim (Bool-cases (before x w)) [
  | inl e ↦ rw e
  | inr e ↦ rw e (ap some (sym (neither x w e k)))
]

better_kept : (x y : GlobalRecordId) → before y x ≡ false → better y (some x) ≡ some x
better_kept x y h = rw h

improved :
    {P : Type 0} (x y : GlobalRecordId) (acc : Option GlobalRecordId)
    → before y x ≡ false
    → (acc ≡ some x) ⊎ P
    → (better y acc ≡ some x) ⊎ P
improved x y acc h (inl e) = inl (ap (better y) e ∙ better_kept x y h)
improved x y acc h (inr p) = inr p

-- An id that is not in the first list is in a later one.
still :
    {P : Type 0} (x : GlobalRecordId) (l : List GlobalRecordId) (ls : List (List GlobalRecordId))
    (acc : Option GlobalRecordId)
    → contains x l ≡ false
    → P ⊎ (contains_any x (l ∷ ls) ≡ true)
    → P ⊎ (contains_any x ls ≡ true)
still x l ls acc h (inl p) = inl p
still x l ls acc h (inr e) = inr (sym (contains_any-skip x l ls h) ∙ e)

module _ {S : Type 0} where
  abbrev pub slots_of : List (Line S) → List (Slot S)
  slots_of [] = []
  slots_of ((s, l) ∷ lines) = (s, head? l) ∷ slots_of lines

  abbrev pub ids_of : List (Line S) → List (List GlobalRecordId)
  ids_of [] = []
  ids_of ((s, l) ∷ lines) = l ∷ ids_of lines

  -- Without any id left there is no best one.
  pub best_none :
      (lines : List (Line S)) (acc : Option GlobalRecordId)
      → ((z : GlobalRecordId) → contains_any z (ids_of lines) ≡ false)
      → best acc (slots_of lines) ≡ acc
  unfolding best
  best_none [] acc n = refl
  best_none ((s, []) ∷ lines) acc n = best_none lines acc (λ z. contains_any-tail z [] _ (n z))
  best_none ((s, x ∷ l) ∷ lines) acc n = cc (contains_any-head x (x ∷ l) _ (n x), contains_self x l)

  -- The best id is the least one.
  pub best_least :
      (x : GlobalRecordId) (lines : List (Line S)) (acc : Option GlobalRecordId)
      → FromAll x (ids_of lines)
      → All Ascending (ids_of lines)
      → NotBefore x acc
      → (acc ≡ some x) ⊎ (contains_any x (ids_of lines) ≡ true)
      → best acc (slots_of lines) ≡ some x
  unfolding best
  best_least x [] acc f asc k (inl e) = e
  best_least x [] acc f asc k (inr e) = cc (contains_any-nil x, e)
  best_least x ((s, []) ∷ lines) acc f asc k h =
      best_least x lines acc (FromAll-tail x [] _ f) asc.1 k (still x [] _ acc (contains-nil x) h)
  best_least x ((s, y ∷ l) ∷ lines) acc f asc k h =
      let y_from : before y x ≡ false = f y (contains_any-here y l (ids_of lines)) in
      best_least x lines (better y acc) (FromAll-tail x (y ∷ l) _ f) asc.1
        (better-NotBefore x y acc y_from k)
        (elim (Bool-cases (same y x)) [
          | inl e ↦
              inl (subst (λ w. better w acc ≡ some x) (sym (same_eq y x e)) (better_self x acc k))
          | inr e ↦ improved x y acc y_from (
              still x (y ∷ l) (ids_of lines) acc
                (contains_first x y l asc.0 (FromAll-head x (y ∷ l) _ f) ∙ e) h)
        ])
