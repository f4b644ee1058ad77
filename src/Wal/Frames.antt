-- ===== src/Wal/Frames.antt =====
-- cmd/seekfs/service_state.go: `appendBinaryWALFrame`, `rewriteWAL` and `readWALFramesAfter`. The log is
-- its bytes, and a write does not fail. `crc32.ChecksumIEEE` is the parameter `crc`.
use seekfs.Common.{
  ℕ, zero, suc, ℤ, ◌*◌, Bool, true, false, ◌||◌, Option, none, some, List, [], ◌∷◌, ◌++◌, length,
  ltb, ◌==◌, if◌then◌else◌, drop, has_prefix,
}
use seekfs.Spool.Words.{put_uint}
use seekfs.Spool.Codec.{ok, error, field, read_full}
use seekfs.Spool.Order.{int_less}
use seekfs.Wal.Batch.{
  WalBatch, WalError, bad_length, bad_crc, read_error, Outcome, done, failed, and_then,
  encode_binary_wal_batch, decode_binary_wal_batch,
}

-- `walMagicV1`
abbrev pub wal_magic_v1 : List ℕ
wal_magic_v1 = b'S' ∷ b'W' ∷ b'A' ∷ b'L' ∷ b'1' ∷ []

-- `length == 0 || length > 64*1024*1024`
abbrev pub length_refused : ℕ → Bool
length_refused n = n == 0 || ltb (64 * 1024 * 1024) n

-- What a test of a frame puts before the frames that follow it.
abbrev pub with_frame :
    Bool → WalBatch → List WalBatch × Option WalError → List WalBatch × Option WalError
with_frame true batch r = (batch ∷ r.0, r.1)
with_frame false batch r = r

module _ (crc : List ℕ → ℕ) where
  unfoldable pub frame_of : List ℕ → List ℕ
  frame_of payload = put_uint 4 (length payload) ++ (put_uint 4 (crc payload) ++ payload)

  -- The file behind the write: its bytes, the magic where it was empty, and the frame.
  unfoldable pub append_binary_wal_frame : List ℕ → WalBatch → Outcome (List ℕ)
  unfolding frame_of
  append_binary_wal_frame file batch =
      let started = if length file == 0 then wal_magic_v1 else file in
      and_then (encode_binary_wal_batch batch.next_usn batch.changes)
        (λ payload. done (started ++ frame_of payload))

  unfoldable pub append_frames : List ℕ → List WalBatch → Outcome (List ℕ)
  append_frames file [] = done file
  append_frames file (batch ∷ batches) =
      and_then (append_binary_wal_frame file batch) (λ file'. append_frames file' batches)

  -- The file that takes the log's place; the log stays as it is where an error is returned.
  unfoldable pub rewrite_wal : List WalBatch → Outcome (List ℕ)
  unfolding append_frames
  rewrite_wal frames = append_frames wal_magic_v1 frames

  -- The frames past the checkpoint, and the error that ends the reading, if one does.
  unfoldable pub read_frames : ℕ → ℤ → List ℕ → List WalBatch × Option WalError
  read_frames zero checkpoint input = ([], none)
  read_frames (suc fuel) checkpoint input = elim (read_full 8 input) [
    | error e ↦ ([], none)
    | ok h ↦ elim (length_refused (field 0 4 h.0)) [
      | true ↦ ([], some bad_length)
      | false ↦ elim (read_full (field 0 4 h.0) h.1) [
        | error e ↦ ([], some (read_error e))
        | ok p ↦ elim (crc p.0 == field 4 4 h.0) [
          | false ↦ ([], some bad_crc)
          | true ↦ elim (decode_binary_wal_batch p.0) [
            | failed e ↦ ([], some e)
            | done batch ↦
                with_frame (int_less checkpoint batch.next_usn) batch
                  (read_frames fuel checkpoint p.1)
          ]
        ]
      ]
    ]
  ]

  unfoldable pub read_wal_frames_after : List ℕ → ℤ → List WalBatch × Option WalError
  unfolding read_frames
  read_wal_frames_after file checkpoint =
      if has_prefix wal_magic_v1 file
      then read_frames (length file) checkpoint (drop 5 file)
      else ([], none)
