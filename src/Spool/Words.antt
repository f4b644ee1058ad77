-- ===== src/Spool/Words.antt =====
-- encoding/binary, LittleEndian, as cmd/seekfs/direct_spool.go uses it, and the conversions between
-- int64 and uint64.
use seekfs.Common.{
  ℕ, zero, suc, ℤ, pos, negsuc, ◌+◌, ◌-◌, ◌*◌, ◌/◌, ◌%◌, ◌^◌, ◌<◌, ◌≡◌, refl, false, List, [], ◌∷◌,
  arith, ltb, if◌then◌else◌,
}

-- `PutUint64` and `PutUint32`: the `n` lowest bytes, the lowest first.
abbrev pub put_uint : ℕ → ℕ → List ℕ
put_uint zero v = []
put_uint (suc n) v = v % 256 ∷ put_uint n (v / 256)

-- `Uint64` and `Uint32`
abbrev pub uint : List ℕ → ℕ
uint [] = 0
uint (b ∷ bytes) = b + 256 * uint bytes

pub uint-put_uint : (n v : ℕ) → v < 256 ^ n → uint (put_uint n v) ≡ v
uint-put_uint zero v h = omega arith
uint-put_uint (suc n) v h = omega (arith, uint-put_uint n (v / 256) (omega arith))

-- `uint64(x)` of an int64
abbrev pub to_uint64 : ℤ → ℕ
to_uint64 (pos n) = n
to_uint64 (negsuc n) = 2 ^ 64 - 1 - n

-- `int64(x)` of a uint64
abbrev pub to_int64 : ℕ → ℤ
to_int64 n = if ltb n (2 ^ 63) then pos n else negsuc (2 ^ 64 - 1 - n)

-- The numbers of an int64.
abbrev pub Int64 : ℤ → Type 0
Int64 (pos n) = n < 2 ^ 63
Int64 (negsuc n) = n < 2 ^ 63

pub to_int64-to_uint64 : (x : ℤ) → Int64 x → to_int64 (to_uint64 x) ≡ x
to_int64-to_uint64 (pos n) h = ground (arith, h)
to_int64-to_uint64 (negsuc n) h =
    let e : ltb (2 ^ 64 - 1 - n) (2 ^ 63) ≡ false = ground (arith, h) in
    let back : 2 ^ 64 - 1 - (2 ^ 64 - 1 - n) ≡ n = omega (arith, h) in rw (e, back) refl

pub to_uint64_bound : (x : ℤ) → Int64 x → to_uint64 x < 256 ^ 8
to_uint64_bound (pos n) h = omega (arith, h)
to_uint64_bound (negsuc n) h = omega (arith, h)
