-- ===== src/Replay/Apply.antt =====
-- cmd/seekfs/service_replay.go: a batch of changes is applied to its end where the directories are ranked,
-- the overlay's map stays right, and the checkpoint goes as far as the changes.
use seekfs.Common.{
  ℕ, ℤ, ◌+◌, ◌≡◌, refl, sym, ap, ◌∙◌, Bool-cases, true, false, ◌&&◌, inl, inr, some, List, [], All,
  ◌<◌, ◌∷◌, ◌==◌, if◌then◌else◌,
}
use seekfs.Spool.Order.{int_less}
use seekfs.Wal.Batch.{UsnChange, WalBatch}
use seekfs.Replay.Volume.{Base, Volume, id_for_frn, needs_info_refresh}
use seekfs.Replay.Owned.{consume_owned_replay_change}
use seekfs.Replay.Path.{Host}
use seekfs.Replay.Change.{
  changed_record, last_change, is_last, advance, apply_change, apply_loop, apply_usn_changes,
  replay_frames,
}
use seekfs.Replay.Entries.{IsConsistent}
use seekfs.Replay.Ranked.{falls, IsRanked}
use seekfs.Replay.Ordered.{Gives, IsOrdered}
use seekfs.Replay.Keeps.{Keeps, record_overlay_change-Keeps}

-- The furthest of a checkpoint and the changes; a change of the reference 0 does not count.
abbrev pub past : ℤ → UsnChange → ℤ
past checkpoint c =
    if c.frn == 0 then checkpoint else if int_less checkpoint c.usn then c.usn else checkpoint

abbrev pub furthest : ℤ → List UsnChange → ℤ
furthest checkpoint [] = checkpoint
furthest checkpoint (c ∷ changes) = furthest (past checkpoint c) changes

-- The rank of each change's reference is less than the fuel, and the record that it would make falls.
pub record IsBelow (base : Base) (rank : ℕ → ℕ) (fuel : ℕ) (c : UsnChange) : Type 0 where
  pub bound : rank c.frn < fuel
  pub falling : falls rank (changed_record base c (id_for_frn base c.frn)) ≡ true

-- The overlay's map is right, its records are ranked, and the checkpoint is the one given.
pub record Stands (rank : ℕ → ℕ) (checkpoint : ℤ) (next : Volume) : Type 0 where
  pub ordered : IsOrdered rank next.overlay
  pub checkpoint_at : next.checkpoint ≡ checkpoint

module _ (base : Base) (host : Host) (rank : ℕ → ℕ) (fuel : ℕ) where
  advance-Stands :
      (vol next : Volume) (c : UsnChange)
      → (c.frn == 0) ≡ false
      → Keeps base rank vol next
      → Stands rank (past vol.checkpoint c) (advance next c.usn)
  unfolding advance
  advance-Stands vol next c z k =
      let same = k.checkpoint in
      elim (Bool-cases (int_less next.checkpoint c.usn)) [
        | inl y ↦
            let y' : int_less vol.checkpoint c.usn ≡ true =
              ap (λ p. int_less p c.usn) (sym same) ∙ y in
            rw (y, z, y') (record { ordered = k.ordered; checkpoint_at = refl })
        | inr n ↦
            let n' : int_less vol.checkpoint c.usn ≡ false =
              ap (λ p. int_less p c.usn) (sym same) ∙ n in
            rw (n, z, n') (record { ordered = k.ordered; checkpoint_at = same })
      ]

  apply_change-Stands :
      (last : List (ℕ × ℕ)) (i : ℕ) (vol : Volume) (c : UsnChange)
      → IsBelow base rank fuel c
      → IsOrdered rank vol.overlay
      → Gives (apply_change base host fuel last i vol c) (Stands rank (past vol.checkpoint c))
  unfolding apply_change Gives
  apply_change-Stands last i vol c b h =
      let (consumed, dynamic) = consume_owned_replay_change base vol.owned_dynamic_dir_frns c in
      let noted = record vol { owned_dynamic_dir_frns = dynamic } in
      let refresh = is_last last i c.frn && needs_info_refresh c.reason in
      elim (Bool-cases (c.frn == 0)) [
        | inl y ↦ rw (apply_change, y) (vol, refl, record { ordered = h; checkpoint_at = refl })
        | inr z ↦
            let (next, e, k) =
              record_overlay_change-Keeps base host fuel rank noted c refresh z b.falling b.bound
                h in
            elim (Bool-cases consumed) [
              | inl t ↦ (
                advance noted c.usn,
                rw (apply_change, z, t) refl,
                advance-Stands vol noted c z (record { ordered = h; checkpoint = refl }),
              )
              | inr f ↦ (
                advance next c.usn,
                rw (apply_change, z, f, e) refl,
                advance-Stands vol next c z
                    (record { ordered = k.ordered; checkpoint = k.checkpoint }),
              )
            ]
      ]

  apply_loop-Stands :
      (last : List (ℕ × ℕ)) (i : ℕ) (vol : Volume) (changes : List UsnChange)
      → All (IsBelow base rank fuel) changes
      → IsOrdered rank vol.overlay
      → Gives
          (apply_loop base host fuel last i vol changes)
          (Stands rank (furthest vol.checkpoint changes))
  unfolding apply_loop Gives
  apply_loop-Stands last i vol [] b h = (vol, refl, record { ordered = h; checkpoint_at = refl })
  apply_loop-Stands last i vol (c ∷ changes) b h =
      let (next, e, s) = apply_change-Stands last i vol c b.0 h in
      let (after, e', t) = apply_loop-Stands last (i + 1) next changes b.1 s.ordered in
      (
        after,
        rw (apply_loop, e) e',
        record {
          ordered = t.ordered;
          checkpoint_at = t.checkpoint_at ∙ ap (λ p. furthest p changes) s.checkpoint_at;
        },
      )

  -- Given a map of the overlay that has the last record of each reference, a rank of the references that
  -- falls to the parent from each live record of the overlay, and from the record that each change would
  -- make, and more fuel than the rank of each change's reference: a batch of changes is applied to its
  -- end, the paths of the changed files included. The overlay's map has the last record of each reference
  -- again, and the overlay's records are ranked as before; the checkpoint is the furthest of what it was
  -- and the sequence numbers of the changes, those of the reference 0 left out, and the index has the same.
  pub apply_usn_changes_lem :
      (vol : Volume) (changes : List UsnChange)
      → IsConsistent vol.overlay
      → IsRanked rank vol.overlay.records
      → All (IsBelow base rank fuel) changes
      → (after : Volume) × (apply_usn_changes base host fuel vol changes ≡ some after)
        × IsConsistent after.overlay
        × IsRanked rank after.overlay.records
        × (after.checkpoint ≡ furthest vol.checkpoint changes)
        × (after.index_checkpoint ≡ after.checkpoint)
  unfolding apply_usn_changes Gives
  apply_usn_changes_lem vol changes c r b =
      let ordered : IsOrdered rank vol.overlay = record { consistent = c; ranked = r } in
      let (next, e, s) = apply_loop-Stands (last_change 0 changes) 0 vol changes b ordered in
      (
        record next { index_checkpoint = next.checkpoint; dirty = true },
        rw (apply_usn_changes, e) refl,
        s.ordered.consistent,
        s.ordered.ranked,
        s.checkpoint_at,
        refl,
      )

  -- Where each change of each frame is below the fuel, the frames of a log are replayed to their end.
  replay_frames_ends :
      (vol : Volume) (frames : List WalBatch)
      → IsConsistent vol.overlay
      → IsRanked rank vol.overlay.records
      → All (λ batch. All (IsBelow base rank fuel) batch.changes) frames
      → (after : Volume) × (replay_frames base host fuel vol frames ≡ some after)
  unfolding replay_frames IsConsistent
  replay_frames_ends vol [] c r b = (vol, refl)
  replay_frames_ends vol (batch ∷ frames) c r b =
      elim (Bool-cases (int_less vol.checkpoint batch.next_usn)) [
        | inr old ↦
            let (after, e) = replay_frames_ends vol frames c r b.1 in
            (after, rw (replay_frames, old) e)
        | inl new ↦
            let (next, e, kept, ranks, at, index_at) =
              apply_usn_changes_lem vol batch.changes c r b.0 in
            let left = record next {
              checkpoint = batch.next_usn;
              index_checkpoint = batch.next_usn;
              dirty = true;
            } in
            let (after, e') = replay_frames_ends left frames kept ranks b.1 in
            (after, rw (replay_frames, new, e) e')
      ]
