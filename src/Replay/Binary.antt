-- ===== src/Replay/Binary.antt =====
-- cmd/seekfs/service_state.go: `replayBinaryWAL`, the reading of the bytes included, which `replayWALWithLimit`
-- calls behind the magic.
use seekfs.Common.{
  ℕ, zero, suc, ℤ, ◌+◌, arith, ◌≡◌, ◌⊎◌, refl, Bool, Bool-cases, true, false, inl, inr, Option,
  none, some, Option-cases, List, [], ◌∷◌, length, ◌==◌, drop, has_prefix,
}
use seekfs.Spool.Codec.{
  SpoolError, Result, eof, unexpected_eof, too_large, ok, error, field, read_full,
}
use seekfs.Spool.Order.{int_less}
use seekfs.Wal.Batch.{
  WalError, Outcome, bad_length, bad_crc, read_error, done, failed, decode_binary_wal_batch,
}
use seekfs.Wal.Frames.{length_refused, read_frames, read_wal_frames_after, wal_magic_v1}
use seekfs.Replay.Volume.{Base, Volume}
use seekfs.Replay.Path.{Host}
use seekfs.Replay.Log.{int_less_asym, int_less_trans, int_less_irrefl}
use seekfs.Replay.Change.{apply_usn_changes, replay_frames}

Result-cases :
    {A : Type 0} (r : Result A) → ((a : A) × (r ≡ ok a)) ⊎ ((e : SpoolError) × (r ≡ error e))
Result-cases (ok a) = inl (a, refl)
Result-cases (error e) = inr (e, refl)

behind_magic :
    (file : List ℕ) → has_prefix wal_magic_v1 file ≡ true → 5 + length (drop 5 file) ≡ length file
behind_magic [] m = cc
behind_magic (a ∷ []) m = ground (arith, m)
behind_magic (a ∷ b ∷ []) m = ground (arith, m)
behind_magic (a ∷ b ∷ c ∷ []) m = ground (arith, m)
behind_magic (a ∷ b ∷ c ∷ d ∷ []) m = ground (arith, m)
behind_magic (a ∷ b ∷ c ∷ d ∷ e ∷ file) m = omega arith

Outcome-cases :
    {A : Type 0} (r : Outcome A) → ((a : A) × (r ≡ done a)) ⊎ ((e : WalError) × (r ≡ failed e))
Outcome-cases (done a) = inl (a, refl)
Outcome-cases (failed e) = inr (e, refl)

module _ (base : Base) (host : Host) (crc : List ℕ → ℕ) (fuel : ℕ) where
  -- A header that is cut is no error where it has no byte, nor before a frame was applied.
  unfoldable pub header_error : Bool → SpoolError → Option WalError
  header_error applied eof = none
  header_error false unexpected_eof = none
  header_error true unexpected_eof = some (read_error unexpected_eof)
  header_error applied too_large = some (read_error too_large)

  -- The volume behind the log, and the error that ends the reading, if one does; `applied` tells whether a
  -- frame was applied. `none` is the end of the fuel of a path.
  unfoldable pub replay_loop : ℕ → Bool → Volume → List ℕ → Option (Volume × Option WalError)
  replay_loop zero applied vol input = some (vol, none)
  replay_loop (suc steps) applied vol input = elim (read_full 8 input) [
    | error e ↦ some (vol, header_error applied e)
    | ok h ↦ elim (length_refused (field 0 4 h.0)) [
      | true ↦ some (vol, some bad_length)
      | false ↦ elim (read_full (field 0 4 h.0) h.1) [
        | error e ↦ some (vol, some (read_error e))
        | ok p ↦ elim (crc p.0 == field 4 4 h.0) [
          | false ↦ some (vol, some bad_crc)
          | true ↦ elim (decode_binary_wal_batch p.0) [
            | failed e ↦ some (vol, some e)
            | done batch ↦ elim (int_less vol.checkpoint batch.next_usn) [
              | false ↦ replay_loop steps applied vol p.1
              | true ↦ elim (apply_usn_changes base host fuel vol batch.changes) [
                | none ↦ none
                | some next ↦
                    replay_loop steps true
                      (record next {
                        checkpoint = batch.next_usn;
                        index_checkpoint = batch.next_usn;
                        dirty = true;
                      })
                      p.1
              ]
            ]
          ]
        ]
      ]
    ]
  ]

  -- The log behind the magic. Each frame has eight bytes at least.
  unfoldable pub replay_binary_wal : Volume → List ℕ → Option (Volume × Option WalError)
  unfolding replay_loop
  replay_binary_wal vol input = replay_loop (5 + length input) false vol input

-- The volume, without the error.
abbrev pub volume_of : Option (Volume × Option WalError) → Option Volume
volume_of none = none
volume_of (some r) = some r.0

module _ (base : Base) (host : Host) (crc : List ℕ → ℕ) (fuel : ℕ) where
  -- The frames that are read past a checkpoint that the volume has passed, replayed, leave the volume that
  -- the loop leaves, up to the same error.
  replay_loop-read_frames :
      (steps : ℕ) (applied : Bool) (vol : Volume) (checkpoint : ℤ) (input : List ℕ)
      → int_less vol.checkpoint checkpoint ≡ false
      → volume_of (replay_loop base host crc fuel steps applied vol input)
        ≡ replay_frames base host fuel vol (read_frames crc steps checkpoint input).0
  unfolding replay_loop read_frames replay_frames
  replay_loop-read_frames zero applied vol checkpoint input h = refl
  replay_loop-read_frames (suc steps) applied vol checkpoint input h =
      elim (Result-cases (read_full 8 input)) [
        | inr (e, r) ↦ rw (replay_loop, read_frames, r) refl
        | inl (head, r) ↦ elim (Bool-cases (length_refused (field 0 4 head.0))) [
          | inl y ↦ rw (replay_loop, read_frames, r, y) refl
          | inr n ↦ elim (Result-cases (read_full (field 0 4 head.0) head.1)) [
            | inr (e, q) ↦ rw (replay_loop, read_frames, r, n, q) refl
            | inl (body, q) ↦ elim (Bool-cases (crc body.0 == field 4 4 head.0)) [
              | inr c ↦ rw (replay_loop, read_frames, r, n, q, c) refl
              | inl c ↦ elim (Outcome-cases (decode_binary_wal_batch body.0)) [
                | inr (e, d) ↦ rw (replay_loop, read_frames, r, n, q, c, d) refl
                | inl (batch, d) ↦
                    let on =
                      λ (b : Bool) (v : Volume) (g : int_less v.checkpoint checkpoint ≡ false).
                        replay_loop-read_frames steps b v checkpoint body.1 g in
                    elim (Bool-cases (int_less checkpoint batch.next_usn)) [
                      | inr dropped ↦
                          let old =
                            int_less_trans checkpoint vol.checkpoint batch.next_usn h dropped in
                          rw (replay_loop, read_frames, r, n, q, c, d, dropped, old)
                            (on applied vol h)
                      | inl kept ↦ elim (Bool-cases (int_less vol.checkpoint batch.next_usn)) [
                        | inr old ↦
                            rw (replay_loop, read_frames, r, n, q, c, d, kept, replay_frames, old)
                              (on applied vol h)
                        | inl new ↦
                            elim (Option-cases
                              (apply_usn_changes base host fuel vol batch.changes)) [
                                | inl e ↦
                                    rw
                                      (
                                        replay_loop, read_frames, r, n, q, c, d, kept,
                                        replay_frames, new, e,
                                      )
                                      refl
                                | inr (next, e) ↦
                                    rw
                                      (
                                        replay_loop, read_frames, r, n, q, c, d, kept,
                                        replay_frames, new, e,
                                      )
                                      (on true
                                        (record next {
                                          checkpoint = batch.next_usn;
                                          index_checkpoint = batch.next_usn;
                                          dirty = true;
                                        })
                                        (int_less_asym checkpoint batch.next_usn kept))
                              ]
                      ]
                    ]
              ]
            ]
          ]
        ]
      ]

  -- A log that begins with the magic, replayed by `replayBinaryWAL`, leaves the volume that the frames leave
  -- which `readWALFramesAfter` reads past the volume's checkpoint.
  replay_binary_wal-read_wal_frames_after :
      (vol : Volume) (file : List ℕ)
      → has_prefix wal_magic_v1 file ≡ true
      → volume_of (replay_binary_wal base host crc fuel vol (drop 5 file))
        ≡ replay_frames base host fuel vol (read_wal_frames_after crc file vol.checkpoint).0
  unfolding replay_binary_wal read_wal_frames_after
  replay_binary_wal-read_wal_frames_after vol file m =
      let count : 5 + length (drop 5 file) ≡ length file = behind_magic file m in
      rw (m, count)
        (replay_loop-read_frames (length file) false vol vol.checkpoint (drop 5 file)
          (int_less_irrefl vol.checkpoint))
