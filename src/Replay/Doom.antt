-- ===== src/Replay/Doom.antt =====
-- cmd/seekfs/service_replay.go: what `resolve` finds, whatever it has remembered, is whether the walk up the
-- parents comes to a dead reference.
use seekfs.Common.{
  ℕ, zero, suc, ◌+◌, ◌<◌, ◌≡◌, refl, sym, ap, subst, ◌∙◌, Bool, Bool-cases, true, false, inl, inr,
  some, List, ◌∷◌, ◌==◌, ==_iff, if◌then◌else◌, arith,
}
use seekfs.Replay.BaseIds.{member}
use seekfs.Replay.Volume.{lookup}
use seekfs.Replay.Cascade.{Fate, dead, alive, up}

module _ (fate_of : ℕ → Fate) (deleted_frn : ℕ) where
  -- The deleted reference is dead, the reference 0 is nothing's.
  unfoldable pub walk : ℕ → Fate
  walk frn = if frn == 0 then alive else if frn == deleted_frn then dead else fate_of frn

  -- The walk is at a dead reference within `n` steps.
  unfoldable pub dies_within : ℕ → ℕ → Bool
  dies_within zero frn = false
  dies_within (suc n) frn = elim (walk frn) [
    | dead ↦ true
    | alive ↦ false
    | up parent ↦ dies_within n parent
  ]

  unfoldable pub Doomed : ℕ → Type 0
  Doomed frn = (n : ℕ) × (dies_within n frn ≡ true)

  -- `k` steps lead from `s` to `f`.
  unfoldable pub Leads : ℕ → ℕ → ℕ → Type 0
  Leads zero s f = s ≡ f
  Leads (suc k) s f = (p : ℕ) × (walk s ≡ up p) × Leads k p f

  Leads-step : (k s f p : ℕ) → Leads k s f → walk f ≡ up p → Leads (suc k) s p
  unfolding Leads
  Leads-step zero s f p h w = (p, ap walk h ∙ w, refl)
  Leads-step (suc k) s f p (q, w0, h) w = (q, w0, Leads-step k q f p h w)

  dies_after :
      (k n s f : ℕ)
      → Leads k s f
      → dies_within n s ≡ true
      → (m : ℕ) × (n ≡ k + m) × (dies_within m f ≡ true)
  unfolding Leads dies_within
  dies_after zero n s f h d = (n, omega arith, subst (λ z. dies_within n z ≡ true) h d)
  dies_after (suc k) zero s f h d = cc
  dies_after (suc k) (suc n) s f (q, w, h) d =
      let (m, e, r) = dies_after k n q f h (sym (rw (dies_within, w) refl) ∙ d) in
      (m, omega (arith, e), r)

  no_cycle : (bound n k s : ℕ) → n < bound → Leads (suc k) s s → dies_within n s ≡ true → ⊥
  no_cycle zero n k s b h d = omega (arith, b)
  no_cycle (suc bound) n k s b h d =
      let (m, e, r) = dies_after (suc k) n s s h d in no_cycle bound m k s (omega (arith, b, e)) h r

  -- The answer is the truth about the reference.
  unfoldable pub Decides : Bool → ℕ → Type 0
  Decides b frn = (b ≡ true → Doomed frn) × (Doomed frn → b ≡ true)

  -- What is remembered is true.
  unfoldable pub Remembers : List (ℕ × Bool) → Type 0
  Remembers doomed = (f : ℕ) (v : Bool) → lookup f doomed ≡ some v → Decides v f

  -- Each reference that has been seen leads to this one.
  unfoldable pub Trail : List ℕ → ℕ → Type 0
  Trail seen frn = (s : ℕ) → member s seen ≡ true → (k : ℕ) × Leads (suc k) s frn

  pub Decides-dead : (frn : ℕ) → walk frn ≡ dead → Decides true frn
  unfolding Decides Doomed dies_within
  Decides-dead frn w = (λ h. (1, rw (dies_within, w) refl), λ h. refl)

  no_end : (n frn : ℕ) → walk frn ≡ alive → dies_within n frn ≡ true → false ≡ true
  unfolding dies_within
  no_end zero frn w d = d
  no_end (suc n) frn w d = sym (rw (dies_within, w) refl) ∙ d

  pub Decides-alive : (frn : ℕ) → walk frn ≡ alive → Decides false frn
  unfolding Decides Doomed
  Decides-alive frn w = (λ h. cc, λ (n, d). no_end n frn w d)

  pub Decides-up : (b : Bool) (frn p : ℕ) → walk frn ≡ up p → Decides b p → Decides b frn
  unfolding Decides Doomed dies_within Leads
  Decides-up b frn p w (t, f) = (
    λ h. let (n, d) = t h in (suc n, rw (dies_within, w) d),
    λ (n, d). let (m, e, r) = dies_after 1 n frn p (p, w, refl) d in f (m, r),
  )

  pub Decides-cycle :
      (seen : List ℕ) (frn : ℕ) → Trail seen frn → member frn seen ≡ true → Decides false frn
  unfolding Decides Doomed Trail
  Decides-cycle seen frn t m = (
    λ h. cc,
    λ (n, d). let (k, l) = t frn m in elim (no_cycle (suc n) n k frn (omega arith) l d) [ ],
  )

  pub Remembers-add :
      (doomed : List (ℕ × Bool)) (frn : ℕ) (b : Bool)
      → Remembers doomed
      → Decides b frn
      → Remembers ((frn, b) ∷ doomed)
  unfolding Remembers
  Remembers-add doomed frn b r d f v h = elim (Bool-cases (f == frn)) [
    | inl y ↦
        let same : some b ≡ some v = sym (rw y refl) ∙ h in
        let value : b ≡ v = cc in
        subst (λ z. Decides z f) value (subst (λ z. Decides b z) (sym ((==_iff f frn).0 y)) d)
    | inr n ↦ r f v (sym (rw n refl) ∙ h)
  ]

  pub Trail-add :
      (seen : List ℕ) (frn p : ℕ) → Trail seen frn → walk frn ≡ up p → Trail (frn ∷ seen) p
  unfolding Trail Leads
  Trail-add seen frn p t w s m = elim (Bool-cases (s == frn)) [
    | inl y ↦ (0, (p, ap walk ((==_iff s frn).0 y) ∙ w, refl))
    | inr n ↦ let (k, l) = t s (sym (rw n refl) ∙ m) in (suc k, Leads-step (suc k) s frn p l w)
  ]
