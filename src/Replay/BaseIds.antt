-- ===== src/Replay/BaseIds.antt =====
-- cmd/seekfs/service_runtime.go: `overlayBaseIDSet`, the ids of base records that the overlay hides. The
-- code leaves out negative ids; here an id is a number below 2 ^ 31.
use seekfs.Common.{
  ℕ, ◌+◌, ◌≡◌, refl, sym, ◌∙◌, length-append, Bool, Bool-cases, true, false, ◌||◌, inl, inr, List,
  [], ◌∷◌, ◌++◌, length, ◌==◌, if◌then◌else◌, arith,
}
use seekfs.Packed.Bits.{bit_at, put_bit, bit_at-put_bit}

pub record OverlayBaseIdSet : Type 0 where
  pub bits : List ℕ
  pub ids : List ℕ
  pub count : ℕ

abbrev pub empty : OverlayBaseIdSet
empty = record { bits = []; ids = []; count = 0 }

unfoldable pub contains : OverlayBaseIdSet → ℕ → Bool
contains set id = bit_at set.bits id

-- The code grows the words before it looks at the bit: a bit behind them is not set.
unfoldable pub add : OverlayBaseIdSet → ℕ → OverlayBaseIdSet
add set id = if bit_at set.bits id then set else record {
  bits = put_bit set.bits id true;
  ids = set.ids ++ (id ∷ []);
  count = set.count + 1;
}

-- `for _, id := range ids { set.add(id) }`
unfoldable pub add_all : OverlayBaseIdSet → List ℕ → OverlayBaseIdSet
add_all set [] = set
add_all set (id ∷ ids) = add_all (add set id) ids

abbrev pub member : ℕ → List ℕ → Bool
member x [] = false
member x (y ∷ ys) = x == y || member x ys

-- No id twice.
abbrev pub Distinct : List ℕ → Type 0
Distinct [] = Unit
Distinct (x ∷ xs) = (member x xs ≡ false) × Distinct xs

-- The list has each id that is in the words once, and the counter is its length.
pub record IsValid (set : OverlayBaseIdSet) : Type 0 where
  pub listed : (k : ℕ) → contains set k ≡ member k set.ids
  pub once : Distinct set.ids
  pub counted : set.count ≡ length set.ids

pub contains-add :
    (set : OverlayBaseIdSet) (id k : ℕ) → contains (add set id) k ≡ (k == id || contains set k)
unfolding contains add
contains-add set id k = ground (arith, bit_at-put_bit set.bits id true k)

pub member-append : (xs ys : List ℕ) (k : ℕ) → member k (xs ++ ys) ≡ (member k xs || member k ys)
member-append [] ys k = refl
member-append (x ∷ xs) ys k = ground (arith, member-append xs ys k)

pub Distinct-append :
    (xs : List ℕ) (y : ℕ) → Distinct xs → member y xs ≡ false → Distinct (xs ++ (y ∷ []))
Distinct-append [] y d n = (refl, tt)
Distinct-append (x ∷ xs) y d n = (
  ground (arith, d.0, n, member-append xs (y ∷ []) x),
  Distinct-append xs y d.1 (ground (arith, n)),
)

add-IsValid : (set : OverlayBaseIdSet) (id : ℕ) → IsValid set → IsValid (add set id)
unfolding add contains
add-IsValid set id v = elim (Bool-cases (bit_at set.bits id)) [
  | inl y ↦ rw y v
  | inr n ↦
      let fresh : member id set.ids ≡ false = sym (v.listed id) ∙ n in
      rw n (record {
        listed = λ k. ground (
          arith,
          bit_at-put_bit set.bits id true k,
          v.listed k,
          member-append set.ids (id ∷ []) k,
        );
        once = Distinct-append set.ids id v.once fresh;
        counted = omega (arith, v.counted, length-append set.ids (id ∷ []));
      })
]

-- What a set of base ids contains after some are added is what it contained and the added, and its list
-- still has each id once and its counter their number.
pub contains-add_all :
    (set : OverlayBaseIdSet) (ids : List ℕ)
    → IsValid set
    → IsValid (add_all set ids)
      × ((k : ℕ) → contains (add_all set ids) k ≡ (member k ids || contains set k))
unfolding add_all
contains-add_all set [] v = (v, λ k. refl)
contains-add_all set (id ∷ ids) v =
    let (w, c) = contains-add_all (add set id) ids (add-IsValid set id v) in
    (w, λ k. ground (arith, c k, contains-add set id k))

pub empty-IsValid : IsValid empty
unfolding contains bit_at
empty-IsValid = record { listed = λ k. ground arith; once = tt; counted = refl }
