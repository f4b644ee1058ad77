-- ===== src/Delta/Defs.antt =====
-- cmd/seekfs/trigram_index.go: `encodeDeltaUvarint32` and `decodeDeltaUvarint32`, over encoding/binary's
-- `PutUvarint` and `Uvarint`. Numbers of 32 bits wrap.
use seekfs.Common.{
  ℕ, zero, suc, ◌+◌, ◌-◌, ◌*◌, ◌/◌, ◌%◌, ◌^◌, ◌&&◌, Option, none, some, List, [], ◌∷◌, ◌++◌, length,
  ltb, ◌==◌, if◌then◌else◌,
}

-- `PutUvarint` into `n` bytes: seven bits a byte, the lowest first.
unfoldable pub put_uvarint : ℕ → ℕ → List ℕ
put_uvarint zero v = []
put_uvarint (suc n) v =
    let more = put_uvarint n (v / 128) in if ltb v 128 then v ∷ [] else (v % 128 + 128) ∷ more

-- What a byte that says that more follow adds to the number behind it.
abbrev joined : ℕ → Option (ℕ × List ℕ) → Option (ℕ × List ℕ)
joined b none = none
joined b (some r) = some (b % 128 + 128 * r.0, r.1)

-- `Uvarint` from the byte with index `i`: the number and the bytes behind it; none where the bytes end
-- or the number does not fit 64 bits.
unfoldable pub uvarint : ℕ → List ℕ → Option (ℕ × List ℕ)
uvarint i [] = none
uvarint i (b ∷ bytes) =
    let more = uvarint (suc i) bytes in
    if i == 10
    then none
    else if ltb b 128
    then if i == 9 && ltb 1 b then none else some (b, bytes)
    else joined b more

-- `binary.MaxVarintLen32`
abbrev pub max_varint_len32 : ℕ
max_varint_len32 = 5

-- `id - prev` on uint32
abbrev pub delta : ℕ → ℕ → ℕ
delta prev id = (id + (2 ^ 32 - prev)) % 2 ^ 32

unfoldable pub encode_loop : ℕ → List ℕ → List ℕ
encode_loop prev [] = []
encode_loop prev (id ∷ ids) = put_uvarint max_varint_len32 (delta prev id) ++ encode_loop id ids

unfoldable pub encode_delta_uvarint32 : List ℕ → List ℕ
unfolding encode_loop
encode_delta_uvarint32 ids = encode_loop 0 ids

-- `for len(encoded) > 0`: each round reads at least one byte, so the length is fuel enough.
unfoldable pub decode_loop : ℕ → ℕ → List ℕ → List ℕ
decode_loop zero prev encoded = []
decode_loop (suc fuel) prev encoded = elim (uvarint 0 encoded) [
  | none ↦ []
  | some r ↦ let id = (prev + r.0 % 2 ^ 32) % 2 ^ 32 in id ∷ decode_loop fuel id r.1
]

unfoldable pub decode_delta_uvarint32 : List ℕ → List ℕ
unfolding decode_loop
decode_delta_uvarint32 encoded = decode_loop (length encoded) 0 encoded
