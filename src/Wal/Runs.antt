-- ===== src/Wal/Runs.antt =====
-- cmd/seekfs/service_state.go: the log at concrete batches.
use seekfs.Common.{ℕ, pos, ◌≡◌, refl, none, some, List, [], ◌∷◌, ◌++◌, filter, All, arith}
use seekfs.Spool.Codec.{unexpected_eof, read_full, fill}
use seekfs.Spool.Order.{int_less}
use seekfs.Wal.Batch.{
  UsnChange, WalBatch, read_error, done, encode_changes, decode_changes, and_then,
  encode_binary_wal_batch, decode_binary_wal_batch,
}
use seekfs.Wal.Frames.{wal_magic_v1, append_binary_wal_frame, rewrite_wal, read_wal_frames_after}
use seekfs.Wal.Laws.{ChangeFits, BatchFits, decode-encode_batch}
use seekfs.Wal.Rewrite.{FrameFits, read_wal_frames_after-rewrite_wal}

abbrev created : UsnChange
created = record {
  frn = 101;
  parent_frn = 5;
  usn = pos 40;
  reason = 256;
  attr = 16;
  name = b'a' ∷ b'b' ∷ [];
}

abbrev removed : UsnChange
removed = record { frn = 102; parent_frn = 101; usn = pos 41; reason = 512; attr = 0; name = [] }

abbrev first_batch : WalBatch
first_batch = record { next_usn = pos 42; changes = created ∷ removed ∷ [] }

abbrev second_batch : WalBatch
second_batch = record { next_usn = pos 50; changes = [] }

-- A checksum for the runs.
abbrev length_sum : List ℕ → ℕ
length_sum bytes = 7

change-fits : ChangeFits created
change-fits = record {
  frn = omega arith;
  parent_frn = omega arith;
  usn = omega arith;
  reason = omega arith;
  attr = omega arith;
  name = omega arith;
}

removed-fits : ChangeFits removed
removed-fits = record {
  frn = omega arith;
  parent_frn = omega arith;
  usn = omega arith;
  reason = omega arith;
  attr = omega arith;
  name = omega arith;
}

first-fits : BatchFits first_batch
first-fits = record {
  next_usn = omega arith;
  changes = (change-fits, (removed-fits, tt));
  count = omega arith;
}

second-fits : BatchFits second_batch
second-fits = record { next_usn = omega arith; changes = tt; count = omega arith }

both-fit : All FrameFits (first_batch ∷ second_batch ∷ [])
both-fit = (
  record { fields = first-fits; size = omega arith },
  (record { fields = second-fits; size = omega arith }, tt),
)

decode-encode_batch_example :
    and_then (encode_binary_wal_batch (pos 42) (created ∷ removed ∷ [])) decode_binary_wal_batch
    ≡ done first_batch
decode-encode_batch_example = decode-encode_batch first_batch first-fits

read_wal_frames_after-rewrite_wal_example :
    and_then
      (rewrite_wal length_sum (first_batch ∷ second_batch ∷ []))
      (λ file. done (read_wal_frames_after length_sum file (pos 42)))
    ≡ done (filter (λ b. int_less (pos 42) b.next_usn) (first_batch ∷ second_batch ∷ []), none)
read_wal_frames_after-rewrite_wal_example =
    read_wal_frames_after-rewrite_wal length_sum (λ bytes. omega arith) (pos 42)
      (first_batch ∷ second_batch ∷ []) both-fit

-- A frame on an empty file starts the log, and is read.
append_test :
    and_then
      (append_binary_wal_frame length_sum [] second_batch)
      (λ file. done (read_wal_frames_after length_sum file (pos 49)))
    ≡ done (second_batch ∷ [], none)
unfolding append_binary_wal_frame read_wal_frames_after encode_binary_wal_batch
    decode_binary_wal_batch encode_changes read_full fill decode_changes
append_test = refl

-- A header that ends the file is left out, without an error; what is then appended is not read.
torn_test : read_wal_frames_after length_sum (wal_magic_v1 ++ (1 ∷ 0 ∷ [])) (pos 0) ≡ ([], none)
unfolding read_wal_frames_after read_full fill
torn_test = refl

appended_test :
    and_then
      (append_binary_wal_frame length_sum (wal_magic_v1 ++ (0 ∷ 0 ∷ [])) second_batch)
      (λ file. done (read_wal_frames_after length_sum file (pos 49)))
    ≡ done ([], some (read_error unexpected_eof))
unfolding append_binary_wal_frame read_wal_frames_after encode_binary_wal_batch
    decode_binary_wal_batch encode_changes read_full fill decode_changes
appended_test = refl
