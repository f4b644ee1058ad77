-- ===== src/Replay/Victims.antt =====
-- cmd/seekfs/service_replay.go: the victims of `cascadeOverlayDelete` are the references that die.
use seekfs.Common.{
  ℕ, ◌<◌, ◌≡◌, refl, sym, ap, subst, ◌∙◌, Bool, Bool-cases, true, false, ◌||◌, ◌&&◌, inl, inr, none,
  some, List, [], ◌∷◌, length, get_or, ◌==◌, ==_iff, if◌then◌else◌, All, arith,
}
use seekfs.Replay.BaseIds.{member}
use seekfs.Replay.Volume.{CompactRecord, no_record, lookup}
use seekfs.Replay.Cascade.{Fate, up, Victim, spared, victims_of}
use seekfs.Replay.Doom.{walk, Doomed, Decides, Remembers, Trail, Leads}
use seekfs.Replay.Resolve.{Answer, Among, unseen_bound, resolve-Answer}
use seekfs.Replay.Latest.{Keyed}
use seekfs.Replay.Deleted.{frns_of}

-- The reference's record goes on to a parent, and the walk from there comes to a dead reference.
unfoldable pub Dies : (ℕ → Fate) → ℕ → List CompactRecord → ℕ → ℕ → Type 0
Dies fate_of deleted_frn records f slot =
    (spared deleted_frn f (get_or records slot no_record) ≡ false)
    × Doomed fate_of deleted_frn (get_or records slot no_record).parent_frn

module _ (fate_of : ℕ → Fate) (deleted_frn : ℕ) (records : List CompactRecord) where
  -- The victims are the listed references that die.
  pub record Right (latest : List (ℕ × ℕ)) (victims : List Victim) : Type 0 where
    pub victim :
        (f slot : ℕ)
        → lookup f latest ≡ some slot
        → member f (frns_of victims) ≡ true
        → Dies fate_of deleted_frn records f slot
    pub dying :
        (f slot : ℕ)
        → lookup f latest ≡ some slot
        → Dies fate_of deleted_frn records f slot
        → member f (frns_of victims) ≡ true
    pub absent : (f : ℕ) → lookup f latest ≡ none → member f (frns_of victims) ≡ false

  unfoldable pub with_victim : Bool → Victim → List Victim → List Victim
  with_victim b v victims = if b then v ∷ victims else victims

  member-with_victim :
      (b : Bool) (v : Victim) (victims : List Victim) (f : ℕ)
      → member f (frns_of (with_victim b v victims))
        ≡ ((b && (f == v.frn)) || member f (frns_of victims))
  unfolding with_victim
  member-with_victim true v victims f = refl
  member-with_victim false v victims f = refl

  Right-cons :
      (k slot0 : ℕ) (name : List ℕ) (latest : List (ℕ × ℕ)) (victims : List Victim) (b : Bool)
      → Right latest victims
      → lookup k latest ≡ none
      → (b ≡ true → Dies fate_of deleted_frn records k slot0)
      → (Dies fate_of deleted_frn records k slot0 → b ≡ true)
      → Right ((k, slot0) ∷ latest) (with_victim b (record { frn = k; name = name }) victims)
  Right-cons k slot0 name latest victims b r n t d =
      let v : Victim = record { frn = k; name = name } in
      record {
        victim = λ f slot l m. elim (Bool-cases (f == k)) [
          | inl y ↦
              let same = (==_iff f k).0 y in
              let at : some slot0 ≡ some slot = sym (rw y refl) ∙ l in
              let slots : slot0 ≡ slot = cc in
              let rest : member f (frns_of victims) ≡ false =
                ap (λ z. member z (frns_of victims)) same ∙ r.absent k n in
              let died = t (ground (arith, m, rest, member-with_victim b v victims f)) in
              subst (λ z. Dies fate_of deleted_frn records z slot) (sym same)
                (subst (λ z. Dies fate_of deleted_frn records k z) slots died)
          | inr o ↦
              r.victim f slot (sym (rw o refl) ∙ l)
                (ground (arith, m, o, member-with_victim b v victims f))
        ];
        dying = λ f slot l h. elim (Bool-cases (f == k)) [
          | inl y ↦
              let same = (==_iff f k).0 y in
              let at : some slot0 ≡ some slot = sym (rw y refl) ∙ l in
              let slots : slot ≡ slot0 = cc in
              let dies = d (
                subst (λ z. Dies fate_of deleted_frn records k z) slots
                  (subst (λ z. Dies fate_of deleted_frn records z slot) same h)) in
              ground (arith, dies, y, member-with_victim b v victims f)
          | inr o ↦
              let m = r.dying f slot (sym (rw o refl) ∙ l) h in
              ground (arith, m, member-with_victim b v victims f)
        ];
        absent = λ f l. elim (Bool-cases (f == k)) [
          | inl y ↦ let e : some slot0 ≡ none = sym (rw y refl) ∙ l in cc
          | inr o ↦
              let m = r.absent f (sym (rw o refl) ∙ l) in
              ground (arith, m, o, member-with_victim b v victims f)
        ];
      }

  -- Each reference that goes on to a parent walks up to it.
  unfoldable pub Linked : List (ℕ × ℕ) → Type 0
  Linked latest =
      All
        (λ e.
          spared deleted_frn e.0 (get_or records e.1 no_record) ≡ false
          → walk fate_of deleted_frn e.0 ≡ up (get_or records e.1 no_record).parent_frn)
        latest

  Trail-one : (f p : ℕ) → walk fate_of deleted_frn f ≡ up p → Trail fate_of deleted_frn (f ∷ []) p
  unfolding Trail Leads
  Trail-one f p w s m =
      let same : s ≡ f = (==_iff s f).0 (ground (arith, m)) in
      (0, (p, ap (walk fate_of deleted_frn) same ∙ w, refl))

  module _ (keys : List ℕ) (among : Among fate_of deleted_frn keys) (fuel : ℕ)
      (enough : length keys < fuel) where
    pub victims_of-Right :
        (latest : List (ℕ × ℕ)) (doomed : List (ℕ × Bool))
        → Keyed latest
        → Linked latest
        → Remembers fate_of deleted_frn doomed
        → (victims : List Victim) × (victims_of fate_of deleted_frn fuel records latest doomed
            ≡ some victims)
          × Right latest victims
    unfolding victims_of Linked with_victim Dies Answer Decides
    victims_of-Right [] doomed k l r = (
      [],
      refl,
      record { victim = λ f slot l m. cc; dying = λ f slot l d. cc; absent = λ f l. refl },
    )
    victims_of-Right ((f, slot) ∷ latest) doomed k l r =
        let rec = get_or records slot no_record in
        elim (Bool-cases (spared deleted_frn f rec)) [
          | inl y ↦
              let (victims, e, right) = victims_of-Right latest doomed k.1 l.1 r in
              (
                victims,
                rw (victims_of, y) e,
                Right-cons f slot rec.name latest victims false right k.0 (λ h. cc)
                    (λ (live, h). cc),
              )
          | inr n ↦
              let (b, memo, answer, decides, known) =
                resolve-Answer fate_of deleted_frn keys among fuel rec.parent_frn (f ∷ []) doomed r
                  (Trail-one f rec.parent_frn (l.0 n))
                  (omega (arith, enough, unseen_bound (f ∷ []) keys)) in
              let (victims, e, right) = victims_of-Right latest memo k.1 l.1 known in
              (
                with_victim b (record { frn = f; name = rec.name }) victims,
                rw (victims_of, n, answer, e) refl,
                Right-cons f slot rec.name latest victims b right k.0 (λ h. (n, decides.0 h))
                    (λ (live, h). decides.1 h),
              )
        ]
