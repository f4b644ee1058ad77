-- ===== src/Replay/Resolve.antt =====
-- cmd/seekfs/service_replay.go: `resolve` ends, and its answer is right.
use seekfs.Common.{
  ℕ, zero, suc, ◌+◌, ◌≤◌, ◌<◌, ◌≡◌, ◌⊎◌, refl, sym, subst, ◌∙◌, Bool, Bool-cases, true, false, inl,
  inr, Option, none, some, Option-cases, List, [], ◌∷◌, length, ◌==◌, ==_iff, if◌then◌else◌, arith,
}
use seekfs.Replay.BaseIds.{member}
use seekfs.Replay.Volume.{lookup}
use seekfs.Replay.Cascade.{Fate, dead, alive, up, resolve}
use seekfs.Replay.Doom.{
  walk, Decides, Remembers, Trail, Decides-dead, Decides-alive, Decides-up, Decides-cycle,
  Remembers-add, Trail-add,
}

-- The references that have not been seen.
abbrev unseen : List ℕ → List ℕ → ℕ
unseen seen [] = 0
unseen seen (k ∷ keys) = if member k seen then unseen seen keys else 1 + unseen seen keys

pub unseen_bound : (seen keys : List ℕ) → unseen seen keys ≤ length keys
unseen_bound seen [] = omega arith
unseen_bound seen (k ∷ keys) = ground (arith, unseen_bound seen keys)

unseen-less : (frn : ℕ) (seen keys : List ℕ) → unseen (frn ∷ seen) keys ≤ unseen seen keys
unseen-less frn seen [] = omega arith
unseen-less frn seen (k ∷ keys) = ground (arith, unseen-less frn seen keys)

unseen-once :
    (frn : ℕ) (seen keys : List ℕ)
    → member frn keys ≡ true
    → member frn seen ≡ false
    → unseen (frn ∷ seen) keys < unseen seen keys
unseen-once frn seen [] m n = cc
unseen-once frn seen (k ∷ keys) m n = elim (Bool-cases (frn == k)) [
  | inl y ↦
      let same = (==_iff frn k).0 y in
      let fresh : member k seen ≡ false = subst (λ z. member z seen ≡ false) same n in
      ground (arith, y, fresh, unseen-less frn seen keys)
  | inr other ↦
      let rest = unseen-once frn seen keys (sym (rw other refl) ∙ m) n in
      ground (arith, rest, other)
]

-- The references from which a walk goes on are among the keys.
unfoldable pub Among : (ℕ → Fate) → ℕ → List ℕ → Type 0
Among fate_of deleted_frn keys =
    (frn p : ℕ) → walk fate_of deleted_frn frn ≡ up p → member frn keys ≡ true

Fate-cases : (x : Fate) → (x ≡ dead) ⊎ (x ≡ alive) ⊎ ((p : ℕ) × (x ≡ up p))
Fate-cases dead = inl refl
Fate-cases alive = inr (inl refl)
Fate-cases (up p) = inr (inr (p, refl))

module _ (fate_of : ℕ → Fate) (deleted_frn : ℕ) (keys : List ℕ)
    (among : Among fate_of deleted_frn keys) where
  -- An answer, with what is remembered behind it.
  unfoldable pub Answer : Option (Bool × List (ℕ × Bool)) → ℕ → Type 0
  Answer result frn =
      (b : Bool) × (memo : List (ℕ × Bool)) × (result ≡ some (b, memo))
      × Decides fate_of deleted_frn b frn
      × Remembers fate_of deleted_frn memo

  module _ (fuel frn : ℕ) (seen : List ℕ) (doomed : List (ℕ × Bool))
      (r : Remembers fate_of deleted_frn doomed) (t : Trail fate_of deleted_frn seen frn) where
    result : Option (Bool × List (ℕ × Bool))
    result = resolve fate_of deleted_frn (suc fuel) frn seen doomed

    at_zero : (frn == 0) ≡ true → Answer result frn
    unfolding resolve Answer walk result
    at_zero z = (
      false,
      doomed,
      rw (resolve, z) refl,
      Decides-alive fate_of deleted_frn frn (rw (walk, z) refl),
      r,
    )

    at_deleted : (frn == 0) ≡ false → (frn == deleted_frn) ≡ true → Answer result frn
    unfolding resolve Answer walk result
    at_deleted z d = (
      true,
      doomed,
      rw (resolve, z, d) refl,
      Decides-dead fate_of deleted_frn frn (rw (walk, z, d) refl),
      r,
    )

    module _ (z : (frn == 0) ≡ false) (d : (frn == deleted_frn) ≡ false) where
      at_known : (v : Bool) → lookup frn doomed ≡ some v → Answer result frn
      unfolding resolve Answer result Remembers
      at_known v h = (v, doomed, rw (resolve, z, d, h) refl, r frn v h, r)

      module _ (h : lookup frn doomed ≡ none) where
        at_seen : member frn seen ≡ true → Answer result frn
        unfolding resolve Answer result
        at_seen m = (
          false,
          doomed,
          rw (resolve, z, d, h, m) refl,
          Decides-cycle fate_of deleted_frn seen frn t m,
          r,
        )

        module _ (m : member frn seen ≡ false) where
          walked : walk fate_of deleted_frn frn ≡ fate_of frn
          unfolding walk
          walked = rw (z, d) refl

          at_dead : fate_of frn ≡ dead → Answer result frn
          unfolding resolve Answer result
          at_dead f =
              let decides = Decides-dead fate_of deleted_frn frn (walked ∙ f) in
              (
                true,
                (frn, true) ∷ doomed,
                rw (resolve, z, d, h, m, f) refl,
                decides,
                Remembers-add fate_of deleted_frn doomed frn true r decides,
              )

          at_alive : fate_of frn ≡ alive → Answer result frn
          unfolding resolve Answer result
          at_alive f =
              let decides = Decides-alive fate_of deleted_frn frn (walked ∙ f) in
              (
                false,
                (frn, false) ∷ doomed,
                rw (resolve, z, d, h, m, f) refl,
                decides,
                Remembers-add fate_of deleted_frn doomed frn false r decides,
              )

          at_up :
              (p : ℕ)
              → fate_of frn ≡ up p
              → Answer (resolve fate_of deleted_frn fuel p (frn ∷ seen) doomed) p
              → Answer result frn
          unfolding resolve Answer result
          at_up p f (b, memo, e, s, q) =
              let decides = Decides-up fate_of deleted_frn b frn p (walked ∙ f) s in
              (
                b,
                (frn, b) ∷ memo,
                rw (resolve, z, d, h, m, f, e) refl,
                decides,
                Remembers-add fate_of deleted_frn memo frn b q decides,
              )

  pub resolve-Answer :
      (fuel frn : ℕ) (seen : List ℕ) (doomed : List (ℕ × Bool))
      → Remembers fate_of deleted_frn doomed
      → Trail fate_of deleted_frn seen frn
      → unseen seen keys < fuel
      → Answer (resolve fate_of deleted_frn fuel frn seen doomed) frn
  unfolding result Among
  resolve-Answer zero frn seen doomed r t l = absurd (omega (arith, l))
  resolve-Answer (suc fuel) frn seen doomed r t l = elim (Bool-cases (frn == 0)) [
    | inl z ↦ at_zero fuel frn seen doomed r t z
    | inr z ↦ elim (Bool-cases (frn == deleted_frn)) [
      | inl d ↦ at_deleted fuel frn seen doomed r t z d
      | inr d ↦ elim (Option-cases (lookup frn doomed)) [
        | inr (v, h) ↦ at_known fuel frn seen doomed r t z d v h
        | inl h ↦ elim (Bool-cases (member frn seen)) [
          | inl m ↦ at_seen fuel frn seen doomed r t z d h m
          | inr m ↦ elim (Fate-cases (fate_of frn)) [
            | inl f ↦ at_dead fuel frn seen doomed r t z d h m f
            | inr (inl f) ↦ at_alive fuel frn seen doomed r t z d h m f
            | inr (inr (p, f)) ↦
                let w = walked fuel frn seen doomed r t z d h m ∙ f in
                at_up fuel frn seen doomed r t z d h m p f (
                  resolve-Answer fuel p (frn ∷ seen) doomed r
                    (Trail-add fate_of deleted_frn seen frn p t w)
                    (omega (arith, l, unseen-once frn seen keys (among frn p w) m)))
          ]
        ]
      ]
    ]
  ]
