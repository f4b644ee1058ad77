-- ===== src/Global/Exclusion/Defs.antt =====
-- cmd/seekfs/global_iterators.go: `globalExclusionIterator`. Either child may be nil: it is `none`,
-- and `optional_iterator` is the source's calls under `exclude != nil`. `(iID, iOK)` is one option.
use seekfs.Common.{ℕ, zero, suc, ◌+◌, Bool, true, false, Option, none, some}
use seekfs.Global.Id.{GlobalRecordId, before}
use seekfs.Global.Iterator.{Iterator}
use seekfs.Global.Optional.{optional_iterator}
use seekfs.Global.Sets.{same}

pub record Exclusion (A B : Type 0) : Type 0 where
  pub include : Option A
  pub exclude : Option B
  pub i_id : Option GlobalRecordId
  pub e_id : Option GlobalRecordId
  pub initialized : Bool

unfoldable pub new_global_exclusion_iterator : {A B : Type 0} → Option A → Option B → Exclusion A B
new_global_exclusion_iterator a b = record {
  include = a;
  exclude = b;
  i_id = none;
  e_id = none;
  initialized = false;
}

-- The state after `init`, with the included child present.
abbrev pub running :
    {A B : Type 0} → A → Option B → Option GlobalRecordId → Option GlobalRecordId → Exclusion A B
running a b i e = record { include = some a; exclude = b; i_id = i; e_id = e; initialized = true }

-- `it.eOK && compareGlobalRecordID(out, it.eID) == 0`
unfoldable pub is_excluded : GlobalRecordId → Option GlobalRecordId → Bool
is_excluded x none = false
is_excluded x (some y) = same x y

module _ {B : Type 0} (J : Iterator B) where
  -- `for it.eOK && compareGlobalRecordID(it.eID, it.iID) < 0 { it.eID, it.eOK = it.exclude.SeekGE(it.iID) }`
  unfoldable pub catch_up :
      ℕ → GlobalRecordId → Option B → Option GlobalRecordId → Option B × Option GlobalRecordId
  catch_up zero x b e = (b, e)
  catch_up (suc f) x b none = (b, none)
  catch_up (suc f) x b (some y) = elim (before y x) [
    | true ↦ let (b', e) = (optional_iterator J).seek_ge x b in catch_up f x b' e
    | false ↦ (b, some y)
  ]

module _ {A B : Type 0} (I : Iterator A) (J : Iterator B) where
  unfoldable pub count_hint : Exclusion A B → ℕ
  count_hint it = elim it.include [ none ↦ 0 | some a ↦ I.count_hint a ]

  -- `for it.iOK { ... }`
  unfoldable pub loop :
      ℕ
      → A
      → Option B
      → Option GlobalRecordId
      → Option GlobalRecordId
      → Exclusion A B × Option GlobalRecordId
  loop zero a b i e = (running a b i e, none)
  loop (suc f) a b none e = (running a b none e, none)
  loop (suc f) a b (some x) e =
      let (b', e') = catch_up J ((optional_iterator J).budget b + 2) x b e in
      let (a', i) = I.next a in
      elim (is_excluded x e') [ true ↦ loop f a' b' i e' | false ↦ (running a' b' i e', some x) ]

  -- `init`, then the loop.
  unfoldable pub start :
      Bool
      → A
      → Option B
      → Option GlobalRecordId
      → Option GlobalRecordId
      → Exclusion A B × Option GlobalRecordId
  start true a b i e = loop (I.budget a + 2) a b i e
  start false a b i e =
      let (a', i') = I.next a in
      let (b', e') = (optional_iterator J).next b in loop (I.budget a' + 2) a' b' i' e'

  unfoldable pub next : Exclusion A B → Exclusion A B × Option GlobalRecordId
  next it = elim it.include [
    | none ↦ (it, none)
    | some a ↦ start it.initialized a it.exclude it.i_id it.e_id
  ]

  -- Both children seek, whatever `i_id` and `e_id` hold.
  unfoldable pub seek_ge : GlobalRecordId → Exclusion A B → Exclusion A B × Option GlobalRecordId
  seek_ge t it = elim it.include [
    | none ↦ (it, none)
    | some a ↦
        let (a', i) = I.seek_ge t a in
        let (b', e) = (optional_iterator J).seek_ge t it.exclude in start true a' b' i e
  ]

  unfoldable pub exclusion_iterator : Iterator (Exclusion A B)
  exclusion_iterator = record {
    next = next;
    seek_ge = seek_ge;
    count_hint = count_hint;
    budget = λ it. elim it.include [ none ↦ 0 | some a ↦ suc (I.budget a) ];
  }
