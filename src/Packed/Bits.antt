-- ===== src/Packed/Bits.antt =====
-- cmd/seekfs/packed_records.go: the bit columns `DirBits` and `DeletedBits`, one bit a record in
-- words of 64 bits. `w & (1 << k) != 0`, `w |= 1 << k` and `w &^= 1 << k` go by the digits of `w`.
use seekfs.Common.{
  ℕ, zero, suc, ◌+◌, ◌-◌, ◌*◌, ◌/◌, ◌%◌, ◌<◌, ◌≡◌, refl, Bool, true, false, List, ◌++◌, arith, leb,
  ◌==◌, if◌then◌else◌, length, get_or, set, replicate, length-append, get_or-set, get_or_past,
  get_or-append, length-replicate,
}

unfoldable pub test_bit : ℕ → ℕ → Bool
test_bit w zero = w % 2 == 1
test_bit w (suc k) = test_bit (w / 2) k

unfoldable pub set_bit : ℕ → ℕ → ℕ
set_bit w zero = w / 2 * 2 + 1
set_bit w (suc k) = set_bit (w / 2) k * 2 + w % 2

unfoldable pub clear_bit : ℕ → ℕ → ℕ
clear_bit w zero = w / 2 * 2
clear_bit w (suc k) = clear_bit (w / 2) k * 2 + w % 2

half_of : (w b : ℕ) → b < 2 → (w * 2 + b) / 2 ≡ w
half_of w b h = omega arith

test_bit-set_bit : (w k j : ℕ) → test_bit (set_bit w k) j ≡ (if j == k then true else test_bit w j)
unfolding test_bit set_bit
test_bit-set_bit w zero zero = ground arith
test_bit-set_bit w zero (suc j) = rw (half_of (w / 2) 1 (omega arith)) (ground arith)
test_bit-set_bit w (suc k) zero = ground arith
test_bit-set_bit w (suc k) (suc j) =
    rw (half_of (set_bit (w / 2) k) (w % 2) (omega arith))
      (ground (arith, test_bit-set_bit (w / 2) k j))

test_bit-clear_bit :
    (w k j : ℕ) → test_bit (clear_bit w k) j ≡ (if j == k then false else test_bit w j)
unfolding test_bit clear_bit
test_bit-clear_bit w zero zero = ground arith
test_bit-clear_bit w zero (suc j) =
    let e : w / 2 * 2 / 2 ≡ w / 2 = omega arith in rw e (ground arith)
test_bit-clear_bit w (suc k) zero = ground arith
test_bit-clear_bit w (suc k) (suc j) =
    rw (half_of (clear_bit (w / 2) k) (w % 2) (omega arith))
      (ground (arith, test_bit-clear_bit (w / 2) k j))

-- `word := i >> 6`; a word out of range reads as no bit.
unfoldable pub bit_at : List ℕ → ℕ → Bool
unfolding test_bit
bit_at bits i =
    if leb (length bits) (i / 64) then false else test_bit (get_or bits (i / 64) 0) (i % 64)

-- A slice that is too short is copied to one of `word + 1` words.
unfoldable pub grown : List ℕ → ℕ → List ℕ
grown bits word =
    if leb (length bits) word then bits ++ replicate (word + 1 - length bits) 0 else bits

unfoldable pub put_bit : List ℕ → ℕ → Bool → List ℕ
unfolding grown set_bit clear_bit
put_bit bits i value =
    let next = grown bits (i / 64) in
    let word = get_or next (i / 64) 0 in
    set next (i / 64) (if value then set_bit word (i % 64) else clear_bit word (i % 64))

test_bit_zero : (k : ℕ) → test_bit 0 k ≡ false
unfolding test_bit
test_bit_zero zero = refl
test_bit_zero (suc k) = test_bit_zero k

-- Every word that is not stored counts as 0.
bit_at-get_or : (bits : List ℕ) (i : ℕ) → bit_at bits i ≡ test_bit (get_or bits (i / 64) 0) (i % 64)
unfolding bit_at
bit_at-get_or bits i = ground (arith, get_or_past bits 0 (i / 64), test_bit_zero (i % 64))

get_or-grown : (bits : List ℕ) (word k : ℕ) → get_or (grown bits word) k 0 ≡ get_or bits k 0
unfolding grown
get_or-grown bits word k = ground (arith, get_or-append bits (word + 1 - length bits) 0 k)

length-grown : (bits : List ℕ) (word : ℕ) → word < length (grown bits word)
unfolding grown
length-grown bits word = ground (
  arith,
  length-append bits (replicate (word + 1 - length bits) 0),
  length-replicate {A = ℕ} (word + 1 - length bits) 0,
)

word_of : (k i : ℕ) → k / 64 ≡ i / 64 → (k % 64 == i % 64) ≡ (k == i)
word_of k i h = ground arith

pub bit_at-put_bit :
    (bits : List ℕ) (i : ℕ) (v : Bool) (k : ℕ)
    → bit_at (put_bit bits i v) k ≡ (if k == i then v else bit_at bits k)
unfolding put_bit
bit_at-put_bit bits i v k =
    let next = grown bits (i / 64) in
    rw (bit_at-get_or, bit_at-get_or, get_or-set)
      (ground (
        arith,
        length-grown bits (i / 64),
        get_or-grown bits (i / 64) (k / 64),
        word_of k i,
        test_bit-set_bit (get_or next (i / 64) 0) (i % 64) (k % 64),
        test_bit-clear_bit (get_or next (i / 64) 0) (i % 64) (k % 64),
      ))
