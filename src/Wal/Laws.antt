-- ===== src/Wal/Laws.antt =====
-- cmd/seekfs/service_state.go: the round trip of a batch.
use seekfs.Common.{
  ℕ, zero, suc, ◌+◌, ◌-◌, ◌^◌, ◌≤◌, ◌<◌, ◌≡◌, refl, ap, sym, ◌∙◌, Bool, true, false, List, [], ◌∷◌,
  ◌++◌, length, All, ltb, ◌==◌, if◌then◌else◌, take, drop, arith, length-drop, length-append,
}
use seekfs.Spool.Words.{
  uint-put_uint, put_uint, to_uint64, to_int64, Int64, to_int64-to_uint64, to_uint64_bound,
}
use seekfs.Spool.Codec.{field}
use seekfs.Wal.Batch.{
  UsnChange, WalBatch, name_too_large, Outcome, done, failed, and_then, change_header,
  encode_changes, encode_binary_wal_batch, change_at, decode_changes, decode_binary_wal_batch,
}

-- The fields are in the ranges of their types.
pub record ChangeFits (c : UsnChange) : Type 0 where
  pub frn : c.frn < 2 ^ 64
  pub parent_frn : c.parent_frn < 2 ^ 64
  pub usn : Int64 c.usn
  pub reason : c.reason < 2 ^ 32
  pub attr : c.attr < 2 ^ 32
  pub name : length c.name < 2 ^ 16

drop_nil : (n : ℕ) → drop {A = ℕ} n [] ≡ []
drop_nil zero = refl
drop_nil (suc n) = refl

drop-drop : (i k : ℕ) (xs : List ℕ) → drop (i + k) xs ≡ drop k (drop i xs)
drop-drop zero k xs = let e : 0 + k ≡ k = omega arith in rw e refl
drop-drop (suc i) k [] = drop_nil (suc i + k) ∙ sym (drop_nil k)
drop-drop (suc i) k (x ∷ xs) =
    let e : suc i + k ≡ suc (i + k) = omega arith in rw e (drop-drop i k xs)

length-change_header : (c : UsnChange) → length (change_header c) ≡ 34
unfolding change_header
length-change_header c = refl

take_front : (xs ys : List ℕ) → take (length xs) (xs ++ ys) ≡ xs
take_front [] ys = refl
take_front (x ∷ xs) ys = ap (λ zs. x ∷ zs) (take_front xs ys)

drop_front : (xs ys : List ℕ) → drop (length xs) (xs ++ ys) ≡ ys
drop_front [] ys = refl
drop_front (x ∷ xs) ys = drop_front xs ys

of_guard :
    (b : Bool) (r : Outcome (List ℕ)) (k : List ℕ → List ℕ) (bytes : List ℕ)
    → (if b then failed name_too_large else and_then r (λ rest. done (k rest))) ≡ done bytes
    → (rest : List ℕ) × (r ≡ done rest) × (b ≡ false) × (bytes ≡ k rest)
of_guard true r k bytes e = cc
of_guard false (failed x) k bytes e = cc
of_guard false (done rest) k bytes e = (rest, refl, refl, cc)

-- What a successful encoding says of its first change.
encode_cons :
    (c : UsnChange) (cs : List UsnChange) (bytes : List ℕ)
    → encode_changes (c ∷ cs) ≡ done bytes
    → (rest : List ℕ) × (encode_changes cs ≡ done rest)
      × (length c.name < 2 ^ 16)
      × (bytes ≡ change_header c ++ (c.name ++ rest))
unfolding encode_changes
encode_cons c cs bytes e =
    let long = ltb (2 ^ 16 - 1) (length c.name) in
    let (rest, r, b, k) =
      of_guard long (encode_changes cs) (λ z. change_header c ++ (c.name ++ z)) bytes e in
    (rest, r, ground (arith, b), k)

module _ (c : UsnChange) (f : ChangeFits c) (short : length c.name < 2 ^ 16) (rest : List ℕ) where
  change_at_start : change_at (change_header c ++ (c.name ++ rest)) 0 (length c.name) ≡ c
  unfolding change_at change_header
  change_at_start =
      rw
        (
          uint-put_uint 8 c.frn (omega (arith, f.frn)),
          uint-put_uint 8 c.parent_frn (omega (arith, f.parent_frn)),
          uint-put_uint 8 (to_uint64 c.usn) (to_uint64_bound c.usn f.usn),
          to_int64-to_uint64 c.usn f.usn,
          uint-put_uint 4 c.reason (omega (arith, f.reason)),
          uint-put_uint 4 c.attr (omega (arith, f.attr)),
          take_front c.name rest,
        )
        refl

  name_length : field 32 2 (change_header c ++ (c.name ++ rest)) ≡ length c.name
  unfolding change_header
  name_length = uint-put_uint 2 (length c.name) (omega (arith, short))

change_at-drop :
    (payload : List ℕ) (off n : ℕ) → change_at payload off n ≡ change_at (drop off payload) 0 n
unfolding change_at
change_at-drop payload off n =
    rw
      (
        drop-drop off 8 payload,
        drop-drop off 16 payload,
        drop-drop off 24 payload,
        drop-drop off 28 payload,
        drop-drop off 34 payload,
      )
      refl

encode_nil : (bytes : List ℕ) → encode_changes [] ≡ done bytes → bytes ≡ []
unfolding encode_changes
encode_nil bytes e = cc

header_front : (c : UsnChange) (ys : List ℕ) → drop 34 (change_header c ++ ys) ≡ ys
unfolding change_header
header_front c ys = refl

decode_changes-encode_changes :
    (changes : List UsnChange) (payload bytes : List ℕ) (off : ℕ)
    → All ChangeFits changes
    → encode_changes changes ≡ done bytes
    → drop off payload ≡ bytes
    → off ≤ length payload
    → decode_changes (length changes) payload off ≡ done (changes, length payload)
unfolding decode_changes
decode_changes-encode_changes [] payload bytes off f e d l =
    let none_left : drop off payload ≡ [] = d ∙ encode_nil bytes e in
    let end : off ≡ length payload =
      omega (arith, l, length-drop off payload, ap length none_left) in
    rw end refl
decode_changes-encode_changes (c ∷ cs) payload bytes off f e d l =
    let (rest, r, short, k) = encode_cons c cs bytes e in
    let tail : drop off payload ≡ change_header c ++ (c.name ++ rest) = d ∙ k in
    let n = length c.name in
    let size : length (drop off payload) ≡ 34 + (n + length rest) =
      ap length tail
      ∙ length-append (change_header c) (c.name ++ rest)
      ∙ rw (length-change_header c, length-append c.name rest) refl in
    let room : length (drop off payload) ≡ length payload - off = length-drop off payload in
    let named : field (off + 32) 2 payload ≡ n =
      rw (drop-drop off 32 payload, tail) (name_length c f.0 short rest) in
    let behind : drop (off + 34 + n) payload ≡ rest =
      drop-drop (off + 34) n payload
      ∙ ap (drop n) (drop-drop off 34 payload ∙ ap (drop 34) tail ∙ header_front c (c.name ++ rest))
      ∙ drop_front c.name rest in
    let change : change_at payload off n ≡ c =
      change_at-drop payload off n ∙ rw tail (change_at_start c f.0 short rest) in
    let whole : ltb (length payload) (off + 34) ≡ false = ground (arith, size, room, l) in
    let whole_name : ltb (length payload) (off + 34 + n) ≡ false = ground (arith, size, room, l) in
    let others =
      decode_changes-encode_changes cs payload rest (off + 34 + n) f.1 r behind
        (omega (arith, size, room, l)) in
    rw (named, whole, whole_name, others, change) refl

-- The bytes of a batch's encoding.
abbrev changes_size : List UsnChange → ℕ
changes_size [] = 0
changes_size (c ∷ cs) = 34 + length c.name + changes_size cs

abbrev pub batch_size : WalBatch → ℕ
batch_size batch = 12 + changes_size batch.changes

encode_changes_total :
    (changes : List UsnChange)
    → All ChangeFits changes
    → (bytes : List ℕ) × (encode_changes changes ≡ done bytes)
      × (length bytes ≡ changes_size changes)
unfolding encode_changes
encode_changes_total [] f = ([], refl, refl)
encode_changes_total (c ∷ cs) f =
    let (rest, r, l) = encode_changes_total cs f.1 in
    let short : ltb (2 ^ 16 - 1) (length c.name) ≡ false = let n = f.0.name in ground (arith, n) in
    (
      change_header c ++ (c.name ++ rest),
      rw (short, r) refl,
      omega (
        arith,
        length-append (change_header c) (c.name ++ rest),
        length-change_header c,
        length-append c.name rest,
        l,
      ),
    )

-- A batch with fields in the ranges of their types and less than 2 ^ 32 changes.
pub record BatchFits (batch : WalBatch) : Type 0 where
  pub next_usn : Int64 batch.next_usn
  pub changes : All ChangeFits batch.changes
  pub count : length batch.changes < 2 ^ 32

module _ (batch : WalBatch) (f : BatchFits batch) where
  encoding :
      (rest : List ℕ) × (encode_changes batch.changes ≡ done rest)
      × (length rest ≡ changes_size batch.changes)
  encoding = encode_changes_total batch.changes f.changes

  -- The encoding of the batch.
  pub payload : List ℕ
  payload =
      put_uint 8 (to_uint64 batch.next_usn) ++ (put_uint 4 (length batch.changes) ++ encoding.0)

  pub payload-encode : encode_binary_wal_batch batch.next_usn batch.changes ≡ done payload
  unfolding encode_binary_wal_batch payload
  payload-encode = rw encoding.1 refl

  pub length-payload : length payload ≡ batch_size batch
  unfolding payload
  length-payload = omega (arith, encoding.2)

  pub decode-payload : decode_binary_wal_batch payload ≡ done batch
  unfolding decode_binary_wal_batch payload
  decode-payload =
      let rest = encoding.0 in
      let changes = batch.changes in
      let count : field 8 4 payload ≡ length changes =
        uint-put_uint 4 (length changes) (omega (arith, f.count)) in
      let usn : to_int64 (field 0 8 payload) ≡ batch.next_usn =
        ap to_int64
          (uint-put_uint 8 (to_uint64 batch.next_usn) (to_uint64_bound batch.next_usn f.next_usn))
        ∙ to_int64-to_uint64 batch.next_usn f.next_usn in
      let size : length payload ≡ 12 + length rest = omega arith in
      let read =
        decode_changes-encode_changes changes payload rest 12 f.changes encoding.1 refl
          (omega (arith, size)) in
      let small : ltb (length payload) 12 ≡ false = ground (arith, size) in
      let end : (length payload == length payload) ≡ true = ground arith in
      rw (small, count, read, end, usn) refl

-- A batch with fields in the ranges of their types, names below 2 ^ 16 bytes and less than 2 ^ 32 changes
-- is encoded, and its encoding decodes to it.
pub decode-encode_batch :
    (batch : WalBatch)
    → BatchFits batch
    → and_then (encode_binary_wal_batch batch.next_usn batch.changes) decode_binary_wal_batch
      ≡ done batch
decode-encode_batch batch f = rw (payload-encode batch f) (decode-payload batch f)
