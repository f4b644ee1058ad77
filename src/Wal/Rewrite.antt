-- ===== src/Wal/Rewrite.antt =====
-- cmd/seekfs/service_state.go: what `rewriteWAL` writes, `readWALFramesAfter` reads.
use seekfs.Common.{
  ℕ, zero, suc, ℤ, ◌*◌, ◌^◌, ◌≤◌, ◌<◌, ◌≡◌, refl, ap, sym, ◌∙◌, Bool-cases, true, false, inl, inr,
  none, List, [], ◌∷◌, ◌++◌, length, filter, All, ◌==◌, arith, length-append,
}
use mathlib.Core.List.{append_assoc, append-nil}
use seekfs.Spool.Words.{uint-put_uint, put_uint}
use seekfs.Spool.Codec.{ok, field, read_full}
use seekfs.Spool.Laws.{read_full_all}
use seekfs.Spool.Order.{int_less}
use seekfs.Wal.Batch.{WalBatch, done, and_then, decode_binary_wal_batch}
use seekfs.Wal.Frames.{
  wal_magic_v1, length_refused, with_frame, frame_of, append_binary_wal_frame, append_frames,
  rewrite_wal, read_frames, read_wal_frames_after,
}
use seekfs.Wal.Laws.{BatchFits, batch_size, payload, payload-encode, length-payload, decode-payload}

-- A batch whose encoding is not longer than the reader takes.
pub record FrameFits (batch : WalBatch) : Type 0 where
  pub fields : BatchFits batch
  pub size : batch_size batch ≤ 64 * 1024 * 1024

module _ (crc : List ℕ → ℕ) (c : (bytes : List ℕ) → crc bytes < 2 ^ 32) where
  -- The bytes of the frames.
  frames_bytes : (frames : List WalBatch) → All FrameFits frames → List ℕ
  frames_bytes [] f = []
  frames_bytes (batch ∷ frames) f =
      frame_of crc (payload batch f.0.fields) ++ frames_bytes frames f.1

  append-fits :
      (b : ℕ) (file : List ℕ) (batch : WalBatch) (f : BatchFits batch)
      → append_binary_wal_frame crc (b ∷ file) batch
        ≡ done ((b ∷ file) ++ frame_of crc (payload batch f))
  unfolding append_binary_wal_frame
  append-fits b file batch f =
      let started : (length (b ∷ file) == 0) ≡ false = ground arith in
      rw (started, payload-encode batch f) refl

  append_frames-fits :
      (b : ℕ) (file : List ℕ) (frames : List WalBatch) (f : All FrameFits frames)
      → append_frames crc (b ∷ file) frames ≡ done ((b ∷ file) ++ frames_bytes frames f)
  unfolding append_frames frames_bytes
  append_frames-fits b file [] f = ap (λ z. done (b ∷ z)) (sym (append-nil file))
  append_frames-fits b file (batch ∷ frames) f =
      let first = frame_of crc (payload batch f.0.fields) in
      rw
        (
          append-fits b file batch f.0.fields,
          append_frames-fits b (file ++ first) frames f.1,
          append_assoc file first (frames_bytes frames f.1),
        )
        refl

  length-frame_of : (bytes rest : List ℕ) → length rest < length (frame_of crc bytes ++ rest)
  unfolding frame_of
  length-frame_of bytes rest = omega (arith, length-append bytes rest)

  -- One frame is read, from what the reads of its parts give.
  frame_read :
      (fuel : ℕ) (checkpoint : ℤ) (batch : WalBatch) (input header behind bytes rest : List ℕ)
      → read_full 8 input ≡ ok (header, behind)
      → length_refused (field 0 4 header) ≡ false
      → read_full (field 0 4 header) behind ≡ ok (bytes, rest)
      → (crc bytes == field 4 4 header) ≡ true
      → decode_binary_wal_batch bytes ≡ done batch
      → read_frames crc (suc fuel) checkpoint input
        ≡ with_frame
            (int_less checkpoint batch.next_usn)
            batch
            (read_frames crc fuel checkpoint rest)
  unfolding read_frames
  frame_read fuel checkpoint batch input header behind bytes rest h taken p sum d =
      rw (read_frames, h, taken, p, sum, d) refl

  no_frames : (fuel : ℕ) (checkpoint : ℤ) → read_frames crc (suc fuel) checkpoint [] ≡ ([], none)
  unfolding read_frames read_full
  no_frames fuel checkpoint = refl

  read_frame :
      (fuel : ℕ) (checkpoint : ℤ) (batch : WalBatch) (f : FrameFits batch) (rest : List ℕ)
      → read_frames crc (suc fuel) checkpoint (frame_of crc (payload batch f.fields) ++ rest)
        ≡ with_frame
            (int_less checkpoint batch.next_usn)
            batch
            (read_frames crc fuel checkpoint rest)
  unfolding frame_of
  read_frame fuel checkpoint batch f rest =
      let bytes = payload batch f.fields in
      let n = length bytes in
      let size : n ≡ batch_size batch = length-payload batch f.fields in
      let header = put_uint 4 n ++ put_uint 4 (crc bytes) in
      let bounded = f.size in
      let count : field 0 4 header ≡ n = uint-put_uint 4 n (omega (arith, size, bounded)) in
      let sum : field 4 4 header ≡ crc bytes = uint-put_uint 4 (crc bytes) (c bytes) in
      let taken : length_refused n ≡ false = ground (arith, size, bounded) in
      let same : (crc bytes == crc bytes) ≡ true = ground arith in
      frame_read fuel checkpoint batch (header ++ (bytes ++ rest)) header (bytes ++ rest) bytes rest
        (read_full_all header (bytes ++ rest)) (ap length_refused count ∙ taken)
        (rw count (read_full_all bytes rest)) (rw sum same) (decode-payload batch f.fields)

  with_frame-filter :
      (checkpoint : ℤ) (batch : WalBatch) (frames : List WalBatch)
      → with_frame
          (int_less checkpoint batch.next_usn)
          batch
          (filter (λ b. int_less checkpoint b.next_usn) frames, none)
        ≡ (filter (λ b. int_less checkpoint b.next_usn) (batch ∷ frames), none)
  with_frame-filter checkpoint batch frames =
      elim (Bool-cases (int_less checkpoint batch.next_usn)) [
        | inl y ↦ rw y refl
        | inr n ↦ rw n refl
      ]

  read_frames-fits :
      (fuel : ℕ) (checkpoint : ℤ) (frames : List WalBatch) (f : All FrameFits frames)
      → length (frames_bytes frames f) < fuel
      → read_frames crc fuel checkpoint (frames_bytes frames f)
        ≡ (filter (λ b. int_less checkpoint b.next_usn) frames, none)
  unfolding frames_bytes
  read_frames-fits zero checkpoint frames f l = absurd (omega (arith, l))
  read_frames-fits (suc fuel) checkpoint [] f l = no_frames fuel checkpoint
  read_frames-fits (suc fuel) checkpoint (batch ∷ frames) f l =
      let rest = frames_bytes frames f.1 in
      let shorter = length-frame_of (payload batch f.0.fields) rest in
      read_frame fuel checkpoint batch f.0 rest
      ∙ ap (with_frame (int_less checkpoint batch.next_usn) batch)
          (read_frames-fits fuel checkpoint frames f.1 (omega (arith, l, shorter)))
      ∙ with_frame-filter checkpoint batch frames

  written_read :
      (checkpoint : ℤ) (frames : List WalBatch) (f : All FrameFits frames)
      → read_wal_frames_after crc (wal_magic_v1 ++ frames_bytes frames f) checkpoint
        ≡ (filter (λ b. int_less checkpoint b.next_usn) frames, none)
  unfolding read_wal_frames_after
  written_read checkpoint frames f =
      read_frames-fits (length (wal_magic_v1 ++ frames_bytes frames f)) checkpoint frames f
        (omega arith)

  -- The frames that a rewrite puts into the log are, past the checkpoint, what the reader gives, in
  -- their order and without an error: each batch is encoded, in at most 64 MiB, and the checksum fits 32
  -- bits.
  pub read_wal_frames_after-rewrite_wal :
      (checkpoint : ℤ) (frames : List WalBatch)
      → All FrameFits frames
      → and_then (rewrite_wal crc frames) (λ file. done (read_wal_frames_after crc file checkpoint))
        ≡ done (filter (λ b. int_less checkpoint b.next_usn) frames, none)
  unfolding rewrite_wal
  read_wal_frames_after-rewrite_wal checkpoint frames f =
      rw (append_frames-fits b'S' (b'W' ∷ b'A' ∷ b'L' ∷ b'1' ∷ []) frames f)
        (ap done (written_read checkpoint frames f))
