-- ===== src/Delta/Laws.antt =====
-- cmd/seekfs/trigram_index.go: the codec's round trip.
use seekfs.Common.{
  ℕ, zero, suc, ◌+◌, ◌*◌, ◌/◌, ◌%◌, ◌^◌, ◌≤◌, ◌<◌, ◌≡◌, refl, ap, ◌∙◌, Bool-cases, true, false, inl,
  inr, some, List, [], ◌∷◌, ◌++◌, length, All, ltb, ◌==◌, arith, length-append,
}
use seekfs.Delta.Defs.{
  put_uvarint, uvarint, delta, encode_loop, encode_delta_uvarint32, decode_loop,
  decode_delta_uvarint32,
}

uvarint-put_uvarint :
    (n v i : ℕ) (rest : List ℕ)
    → v < 128 ^ suc n
    → i + n < 9
    → uvarint i (put_uvarint (suc n) v ++ rest) ≡ some (v, rest)
unfolding uvarint put_uvarint
uvarint-put_uvarint zero v i rest h l =
    let e : ltb v 128 ≡ true = ground (arith, h) in
    let nine : (i == 9) ≡ false = ground (arith, l) in
    let ten : (i == 10) ≡ false = ground (arith, l) in rw (e, ten, e, nine) refl
uvarint-put_uvarint (suc n) v i rest h l =
    let nine : (i == 9) ≡ false = ground (arith, l) in
    let ten : (i == 10) ≡ false = ground (arith, l) in
    elim (Bool-cases (ltb v 128)) [
      | inl e ↦ rw (e, ten, e, nine) refl
      | inr e ↦
          let big : ltb (v % 128 + 128) 128 ≡ false = ground arith in
          let ih = uvarint-put_uvarint n (v / 128) (suc i) rest (omega arith) (omega (arith, l)) in
          let back : (v % 128 + 128) % 128 + 128 * (v / 128) ≡ v = omega arith in
          rw (e, ten, big, ih, back) refl
    ]

length-put_uvarint : (n v : ℕ) → 0 < length (put_uvarint (suc n) v)
unfolding put_uvarint
length-put_uvarint n v = ground arith

delta_back :
    (prev id : ℕ) → prev < 2 ^ 32 → id < 2 ^ 32 → (prev + delta prev id % 2 ^ 32) % 2 ^ 32 ≡ id
delta_back prev id h g = omega arith

decode_step :
    (fuel prev v : ℕ) (bytes rest : List ℕ)
    → uvarint 0 bytes ≡ some (v, rest)
    → decode_loop (suc fuel) prev bytes
      ≡ (prev + v % 2 ^ 32) % 2 ^ 32 ∷ decode_loop fuel ((prev + v % 2 ^ 32) % 2 ^ 32) rest
unfolding decode_loop
decode_step fuel prev v bytes rest e = rw (decode_loop, e) refl

length-encode_loop :
    (prev id : ℕ) (ids : List ℕ)
    → length (encode_loop id ids) < length (encode_loop prev (id ∷ ids))
unfolding encode_loop
length-encode_loop prev id ids = omega (
  arith,
  length-append (put_uvarint 5 (delta prev id)) (encode_loop id ids),
  length-put_uvarint 4 (delta prev id),
)

decode_nothing : (fuel prev : ℕ) → decode_loop fuel prev [] ≡ []
unfolding decode_loop uvarint
decode_nothing zero prev = refl
decode_nothing (suc fuel) prev = refl

decode_loop-encode_loop :
    (fuel prev : ℕ) (ids : List ℕ)
    → prev < 2 ^ 32
    → All (λ id. id < 2 ^ 32) ids
    → length (encode_loop prev ids) ≤ fuel
    → decode_loop fuel prev (encode_loop prev ids) ≡ ids
unfolding encode_loop
decode_loop-encode_loop fuel prev [] h a f = decode_nothing fuel prev
decode_loop-encode_loop zero prev (id ∷ ids) h a f =
    absurd (omega (arith, f, length-encode_loop prev id ids))
decode_loop-encode_loop (suc fuel) prev (id ∷ ids) h a f =
    let more = encode_loop id ids in
    let read = uvarint-put_uvarint 4 (delta prev id) 0 more (omega arith) (omega arith) in
    decode_step fuel prev (delta prev id) (put_uvarint 5 (delta prev id) ++ more) more read
    ∙ rw (delta_back prev id h a.0) (
        ap (λ zs. id ∷ zs)
          (decode_loop-encode_loop fuel id ids a.0 a.1
            (omega (arith, f, length-encode_loop prev id ids))))

-- Decoding what was encoded gives the ids back, in whatever order they stand.
pub decode-encode :
    (ids : List ℕ)
    → All (λ id. id < 2 ^ 32) ids
    → decode_delta_uvarint32 (encode_delta_uvarint32 ids) ≡ ids
unfolding decode_delta_uvarint32 encode_delta_uvarint32
decode-encode ids a =
    decode_loop-encode_loop (length (encode_loop 0 ids)) 0 ids (omega arith) a (omega arith)
