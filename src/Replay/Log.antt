-- ===== src/Replay/Log.antt =====
-- cmd/seekfs/service_state.go: a log that keeps only the frames past the checkpoint replays as the whole log.
use seekfs.Common.{
  ℕ, ℤ, pos, negsuc, ◌^◌, ◌<◌, ◌≡◌, refl, ap, ◌∙◌, Bool-cases, true, false, inl, inr, Option,
  Option-cases, List, [], ◌∷◌, filter, All, arith,
}
use seekfs.Spool.Order.{int_less}
use seekfs.Wal.Batch.{WalBatch, WalError, Outcome, done, failed, and_then}
use seekfs.Wal.Frames.{rewrite_wal, read_wal_frames_after}
use seekfs.Wal.Rewrite.{FrameFits, read_wal_frames_after-rewrite_wal}
use seekfs.Replay.Volume.{Base, Volume}
use seekfs.Replay.Path.{Host}
use seekfs.Replay.Change.{apply_usn_changes, replay_frames}

pub int_less_asym : (x y : ℤ) → int_less x y ≡ true → int_less y x ≡ false
int_less_asym (pos m) (pos n) h = ground (arith, h)
int_less_asym (pos m) (negsuc n) h = cc
int_less_asym (negsuc m) (pos n) h = refl
int_less_asym (negsuc m) (negsuc n) h = ground (arith, h)

pub int_less_trans :
    (x y z : ℤ) → int_less y x ≡ false → int_less x z ≡ false → int_less y z ≡ false
int_less_trans (pos m) (pos n) (pos k) h g = ground (arith, h, g)
int_less_trans (pos m) (pos n) (negsuc k) h g = refl
int_less_trans (pos m) (negsuc n) z h g = cc
int_less_trans (negsuc m) (pos n) (pos k) h g = cc
int_less_trans (negsuc m) (pos n) (negsuc k) h g = refl
int_less_trans (negsuc m) (negsuc n) (pos k) h g = cc
int_less_trans (negsuc m) (negsuc n) (negsuc k) h g = ground (arith, h, g)

pub int_less_irrefl : (x : ℤ) → int_less x x ≡ false
int_less_irrefl (pos m) = ground arith
int_less_irrefl (negsuc m) = ground arith

and_then_through :
    {A B C : Type 0} (r : Outcome A) (g : A → B) (k : B → C)
    → and_then r (λ a. done (k (g a))) ≡ and_then (and_then r (λ a. done (g a))) (λ b. done (k b))
and_then_through (failed e) g k = refl
and_then_through (done a) g k = refl

module _ (base : Base) (host : Host) (fuel : ℕ) where
  later : ℤ → List WalBatch → List WalBatch
  later checkpoint frames = filter (λ b. int_less checkpoint b.next_usn) frames

  -- The volume behind a frame.
  at_frame : Volume → WalBatch → Volume
  at_frame next batch = record next {
    checkpoint = batch.next_usn;
    index_checkpoint = batch.next_usn;
    dirty = true;
  }

  replay-later :
      (checkpoint : ℤ) (vol : Volume) (frames : List WalBatch)
      → int_less vol.checkpoint checkpoint ≡ false
      → replay_frames base host fuel vol (later checkpoint frames)
        ≡ replay_frames base host fuel vol frames
  unfolding replay_frames later at_frame
  replay-later checkpoint vol [] h = refl
  replay-later checkpoint vol (batch ∷ frames) h =
      let same = λ (v : Volume) (g : int_less v.checkpoint checkpoint ≡ false).
        replay-later checkpoint v frames g in
      elim (Bool-cases (int_less checkpoint batch.next_usn)) [
        | inl kept ↦ elim (Bool-cases (int_less vol.checkpoint batch.next_usn)) [
          | inr old ↦ rw (kept, replay_frames, old) (same vol h)
          | inl new ↦ elim (Option-cases (apply_usn_changes base host fuel vol batch.changes)) [
            | inl e ↦ rw (kept, replay_frames, new, e) refl
            | inr (next, e) ↦
                rw (kept, replay_frames, new, e)
                  (same (at_frame next batch) (int_less_asym checkpoint batch.next_usn kept))
          ]
        ]
        | inr dropped ↦
            let old = int_less_trans checkpoint vol.checkpoint batch.next_usn h dropped in
            rw (dropped, replay_frames, old) (same vol h)
      ]

  -- A log is rewritten with frames, each in the ranges of the codec, and read past the volume's
  -- checkpoint: replaying what is read leaves the volume as replaying all the frames does, for a checksum
  -- that fits 32 bits and for any fuel for the paths of the changed files.
  pub replay_frames-rewrite_wal :
      (crc : List ℕ → ℕ) (vol : Volume) (frames : List WalBatch)
      → ((bytes : List ℕ) → crc bytes < 2 ^ 32)
      → All FrameFits frames
      → and_then (rewrite_wal crc frames) (λ file.
        done (replay_frames base host fuel vol (read_wal_frames_after crc file vol.checkpoint).0))
        ≡ done (replay_frames base host fuel vol frames)
  unfolding later
  replay_frames-rewrite_wal crc vol frames c f =
      let read = λ (file : List ℕ). read_wal_frames_after crc file vol.checkpoint in
      let replayed =
        λ (r : List WalBatch × Option WalError). replay_frames base host fuel vol r.0 in
      and_then_through (rewrite_wal crc frames) read replayed
      ∙ ap (λ o. and_then o (λ r. done (replayed r)))
          (read_wal_frames_after-rewrite_wal crc c vol.checkpoint frames f)
      ∙ ap done (replay-later vol.checkpoint vol frames (int_less_irrefl vol.checkpoint))
