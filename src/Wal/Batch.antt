-- ===== src/Wal/Batch.antt =====
-- cmd/seekfs/service_state.go: `encodeBinaryWALBatch` and `decodeBinaryWALBatch`. Of a number read from
-- 32 bits the code's `count < 0` is never true on 64 bits.
use seekfs.Common.{
  ℕ, zero, suc, ℤ, ◌+◌, ◌-◌, ◌^◌, List, [], ◌∷◌, ◌++◌, length, ltb, ◌==◌, if◌then◌else◌, take, drop,
  not,
}
use seekfs.Spool.Words.{put_uint, to_uint64, to_int64}
use seekfs.Spool.Codec.{SpoolError, field}

pub record UsnChange : Type 0 where
  pub frn : ℕ
  pub parent_frn : ℕ
  pub usn : ℤ
  pub reason : ℕ
  pub attr : ℕ
  pub name : List ℕ

pub record WalBatch : Type 0 where
  pub next_usn : ℤ
  pub changes : List UsnChange

pub data WalError : Type 0 where
  name_too_large : WalError
  frame_too_small : WalError
  truncated_change : WalError
  truncated_name : WalError
  trailing_bytes : WalError
  bad_length : WalError
  bad_crc : WalError
  read_error : SpoolError → WalError

pub data Outcome (A : Type 0) : Type 0 where
  done : A → Outcome A
  failed : WalError → Outcome A

abbrev pub and_then : {A B : Type 0} → Outcome A → (A → Outcome B) → Outcome B
and_then (failed e) k = failed e
and_then (done a) k = k a

-- The 34 bytes in front of a change's name.
unfoldable pub change_header : UsnChange → List ℕ
change_header c =
    put_uint 8 c.frn
    ++ (put_uint 8 c.parent_frn
        ++ (put_uint 8 (to_uint64 c.usn)
            ++ (put_uint 4 c.reason ++ (put_uint 4 c.attr ++ put_uint 2 (length c.name)))))

unfoldable pub encode_changes : List UsnChange → Outcome (List ℕ)
encode_changes [] = done []
encode_changes (c ∷ changes) =
    if ltb (2 ^ 16 - 1) (length c.name)
    then failed name_too_large
    else and_then (encode_changes changes) (λ rest. done (change_header c ++ (c.name ++ rest)))

unfoldable pub encode_binary_wal_batch : ℤ → List UsnChange → Outcome (List ℕ)
encode_binary_wal_batch next_usn changes =
    and_then (encode_changes changes)
      (λ rest. done (put_uint 8 (to_uint64 next_usn) ++ (put_uint 4 (length changes) ++ rest)))

-- The change that stands at `off`, its name of `n` bytes.
unfoldable pub change_at : List ℕ → ℕ → ℕ → UsnChange
change_at payload off n = record {
  frn = field off 8 payload;
  parent_frn = field (off + 8) 8 payload;
  usn = to_int64 (field (off + 16) 8 payload);
  reason = field (off + 24) 4 payload;
  attr = field (off + 28) 4 payload;
  name = take n (drop (off + 34) payload);
}

-- `for i := 0; i < count; i++`; the changes and the place behind them.
unfoldable pub decode_changes : ℕ → List ℕ → ℕ → Outcome (List UsnChange × ℕ)
decode_changes zero payload off = done ([], off)
decode_changes (suc count) payload off =
    let n = field (off + 32) 2 payload in
    let rest = decode_changes count payload (off + 34 + n) in
    if ltb (length payload) (off + 34)
    then failed truncated_change
    else if ltb (length payload) (off + 34 + n)
    then failed truncated_name
    else and_then rest (λ r. done (change_at payload off n ∷ r.0, r.1))

unfoldable pub decode_binary_wal_batch : List ℕ → Outcome WalBatch
decode_binary_wal_batch payload =
    if ltb (length payload) 12
    then failed frame_too_small
    else and_then (decode_changes (field 8 4 payload) payload 12) (λ r.
      if not (r.1 == length payload)
      then failed trailing_bytes
      else done (record { next_usn = to_int64 (field 0 8 payload); changes = r.0 }))
