-- ===== src/Spool/Order.antt =====
-- cmd/seekfs/direct_spool.go: `directRecordLess`, the order in which runs are sorted and merged.
use seekfs.Common.{
  ℕ, ℤ, pos, negsuc, ◌≡◌, ◌⊎◌, not, Bool-cases, refl, ap, sym, ◌∙◌, Bool, true, false, ◌&&◌, inl,
  inr, List, [], ◌∷◌, ltb, ◌==◌, ==_iff, if◌then◌else◌, arith,
}
use seekfs.Packed.Names.Defs.{bytes_eq}
use seekfs.Packed.Names.Blobs.{bytes_eq_sound}
use seekfs.Spool.Codec.{DirectRecord}

-- `<` on strings, by their bytes.
abbrev pub bytes_less : List ℕ → List ℕ → Bool
bytes_less xs [] = false
bytes_less [] (y ∷ ys) = true
bytes_less (x ∷ xs) (y ∷ ys) = if x == y then bytes_less xs ys else ltb x y

-- `==` and `<` on int64
abbrev pub int_eq : ℤ → ℤ → Bool
int_eq (pos m) (pos n) = m == n
int_eq (negsuc m) (negsuc n) = m == n
int_eq (pos m) (negsuc n) = false
int_eq (negsuc m) (pos n) = false

abbrev pub int_less : ℤ → ℤ → Bool
int_less (pos m) (pos n) = ltb m n
int_less (negsuc m) (negsuc n) = ltb n m
int_less (pos m) (negsuc n) = false
int_less (negsuc m) (pos n) = true

unfoldable pub direct_record_less : DirectRecord → DirectRecord → Bool
direct_record_less a b =
    if a.frn == b.frn
    then (if a.parent_frn == b.parent_frn
        then (if bytes_eq a.name b.name
            then (if bytes_eq a.path b.path
                then (if a.mode == b.mode
                    then (if int_eq a.size b.size
                        then int_less a.mod_unix b.mod_unix
                        else int_less a.size b.size)
                    else ltb a.mode b.mode)
                else bytes_less a.path b.path)
            else bytes_less a.name b.name)
        else ltb a.parent_frn b.parent_frn)
    else ltb a.frn b.frn

-- Two tests of a key, each way round: the keys are equal both ways or neither, and less one way at most,
-- and one way at least where they differ.
record Key (same less same' less' : Bool) : Type 0 where
  both : same ≡ same'
  equal : same ≡ true → less ≡ false
  once : same ≡ false → less ≡ true → less' ≡ false
  some_way : same ≡ false → less ≡ false → less' ≡ true

number-Key : (m n : ℕ) → Key (m == n) (ltb m n) (n == m) (ltb n m)
number-Key m n = record {
  both = ground arith;
  equal = λ s. ground (arith, s);
  once = λ s l. ground (arith, s, l);
  some_way = λ s l. ground (arith, s, l);
}

int-Key : (m n : ℤ) → Key (int_eq m n) (int_less m n) (int_eq n m) (int_less n m)
int-Key (pos m) (pos n) = number-Key m n
int-Key (pos m) (negsuc n) = record {
  both = refl;
  equal = λ s. absurd (ground (arith, s));
  once = λ s l. absurd (ground (arith, l));
  some_way = λ s l. refl;
}
int-Key (negsuc m) (pos n) = record {
  both = refl;
  equal = λ s. absurd (ground (arith, s));
  once = λ s l. refl;
  some_way = λ s l. absurd (ground (arith, l));
}
int-Key (negsuc m) (negsuc n) = record {
  both = ground arith;
  equal = λ s. ground (arith, s);
  once = λ s l. ground (arith, s, l);
  some_way = λ s l. ground (arith, s, l);
}

layer :
    (s l s' l' t m t' m' : Bool)
    → Key s l s' l'
    → Key t m t' m'
    → Key (s && t) (if s then m else l) (s' && t') (if s' then m' else l')
layer true l true l' t m t' m' k q = q
layer true l false l' t m t' m' k q = absurd (ground (arith, k.both))
layer false l true l' t m t' m' k q = absurd (ground (arith, k.both))
layer false l false l' t m t' m' k q = record {
  both = refl;
  equal = λ e. absurd (ground (arith, e));
  once = k.once;
  some_way = k.some_way;
}

bytes-Key :
    (xs ys : List ℕ) → Key (bytes_eq xs ys) (bytes_less xs ys) (bytes_eq ys xs) (bytes_less ys xs)
bytes-Key [] [] = record {
  both = refl;
  equal = λ s. refl;
  once = λ s l. absurd (ground (arith, l));
  some_way = λ s l. absurd (ground (arith, s));
}
bytes-Key [] (y ∷ ys) = record {
  both = refl;
  equal = λ s. absurd (ground (arith, s));
  once = λ s l. refl;
  some_way = λ s l. absurd (ground (arith, l));
}
bytes-Key (x ∷ xs) [] = record {
  both = refl;
  equal = λ s. refl;
  once = λ s l. absurd (ground (arith, l));
  some_way = λ s l. refl;
}
bytes-Key (x ∷ xs) (y ∷ ys) = layer _ _ _ _ _ _ _ _ (number-Key x y) (bytes-Key xs ys)

same_fields : DirectRecord → DirectRecord → Bool
same_fields a b =
    a.frn == b.frn
    && (a.parent_frn == b.parent_frn
        && (bytes_eq a.name b.name
            && (bytes_eq a.path b.path
                && (a.mode == b.mode && (int_eq a.size b.size && int_eq a.mod_unix b.mod_unix)))))

record-Key :
    (a b : DirectRecord)
    → Key (same_fields a b) (direct_record_less a b) (same_fields b a) (direct_record_less b a)
unfolding same_fields direct_record_less
record-Key a b = layer _ _ _ _ _ _ _ _ (number-Key a.frn b.frn) (
    layer _ _ _ _ _ _ _ _ (number-Key a.parent_frn b.parent_frn) (
      layer _ _ _ _ _ _ _ _ (bytes-Key a.name b.name) (
        layer _ _ _ _ _ _ _ _ (bytes-Key a.path b.path) (
          layer _ _ _ _ _ _ _ _ (number-Key a.mode b.mode)
            (layer _ _ _ _ _ _ _ _ (int-Key a.size b.size) (int-Key a.mod_unix b.mod_unix))))))

int_eq_sound : (m n : ℤ) → int_eq m n ≡ true → m ≡ n
int_eq_sound (pos m) (pos n) h = ap pos ((==_iff m n).0 h)
int_eq_sound (negsuc m) (negsuc n) h = ap negsuc ((==_iff m n).0 h)
int_eq_sound (pos m) (negsuc n) h = absurd (ground (arith, h))
int_eq_sound (negsuc m) (pos n) h = absurd (ground (arith, h))

same_fields_sound : (a b : DirectRecord) → same_fields a b ≡ true → a ≡ b
unfolding same_fields
same_fields_sound a b h =
    rw
      (
        (==_iff a.frn b.frn).0 (ground (arith, h)),
        (==_iff a.parent_frn b.parent_frn).0 (ground (arith, h)),
        bytes_eq_sound a.name b.name (ground (arith, h)),
        bytes_eq_sound a.path b.path (ground (arith, h)),
        (==_iff a.mode b.mode).0 (ground (arith, h)),
        int_eq_sound a.size b.size (ground (arith, h)),
        int_eq_sound a.mod_unix b.mod_unix (ground (arith, h)),
      )
      refl

-- Of two records, either they are equal and neither is less, or exactly one is less than the other.
pub direct_record_less_lem :
    (a b : DirectRecord)
    → (a ≡ b × (direct_record_less a b ≡ false × direct_record_less b a ≡ false))
      ⊎ direct_record_less b a ≡ not (direct_record_less a b)
direct_record_less_lem a b =
    let k = record-Key a b in
    elim (Bool-cases (same_fields a b)) [
      | inl s ↦
          let back = record-Key b a in
          inl (same_fields_sound a b s, (k.equal s, back.equal (sym k.both ∙ s)))
      | inr s ↦ elim (Bool-cases (direct_record_less a b)) [
        | inl l ↦ inr (rw l (k.once s l))
        | inr l ↦ inr (rw l (k.some_way s l))
      ]
    ]
