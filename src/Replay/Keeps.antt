-- ===== src/Replay/Keeps.antt =====
-- cmd/seekfs/service_replay.go: `recordOverlayChange` ends, keeps the overlay's map right and its records
-- ranked, and leaves the checkpoint.
use seekfs.Common.{
  ℕ, ℤ, ◌<◌, ◌≡◌, refl, sym, ap, subst, ◌∙◌, Bool, Bool-cases, true, false, ◌||◌, ◌&&◌, not, inl,
  inr, Option, none, some, Option-cases, length, get_or, get_elem?, List, [], ◌∷◌, is_zero, leb,
  ◌==◌, if◌then◌else◌,
}
use seekfs.Wal.Batch.{UsnChange}
use seekfs.Replay.Volume.{
  CompactRecord, no_record, Base, OverlaySegment, Volume, is_delete, is_rename_old, is_rename_new,
  id_for_frn, int_negate,
}
use seekfs.Replay.Sizes.{
  overlay_record, add_ancestor_dir_delta, effective_accounting_size, effective_parent_frn,
}
use seekfs.Replay.Cascade.{latest_overlay_slots_by_frn}
use seekfs.Replay.Change.{
  first_non_zero_frn, with_overlay, append_record, deletion, record_deletion, changed_record,
  shadow, refresh_overlay_file_info, with_info, change_in_overlay, account_update, record_update,
  record_overlay_change,
}
use seekfs.Replay.Path.{Host, is_empty}
use seekfs.Replay.Deleted.{get_elem?-last}
use seekfs.Replay.Ranked.{falls, IsRanked-set, overlay_record_path_ends}
use seekfs.Replay.Entries.{IsConsistent, lookup-latest_set}
use seekfs.Replay.Ordered.{
  IsOrdered, append_record-IsOrdered, Gives, changed_record_frn, delete_in_overlay-IsOrdered,
}

module _ (base : Base) where
  -- The accounting of sizes leaves the overlay and the checkpoint.
  overlay-add_ancestor_dir_delta :
      (vol : Volume) (dir : ℕ) (delta : ℤ)
      → (add_ancestor_dir_delta base vol dir delta).overlay ≡ vol.overlay
  unfolding add_ancestor_dir_delta
  overlay-add_ancestor_dir_delta vol dir delta = elim (Bool-cases (is_zero delta || (dir == 0))) [
    | inl y ↦ rw y refl
    | inr n ↦ rw n refl
  ]

  checkpoint-add_ancestor_dir_delta :
      (vol : Volume) (dir : ℕ) (delta : ℤ)
      → (add_ancestor_dir_delta base vol dir delta).checkpoint ≡ vol.checkpoint
  unfolding add_ancestor_dir_delta
  checkpoint-add_ancestor_dir_delta vol dir delta =
      elim (Bool-cases (is_zero delta || (dir == 0))) [ inl y ↦ rw y refl | inr n ↦ rw n refl ]

  -- The overlay's map is right, its records are ranked, and the checkpoint is the volume's.
  pub record Keeps (rank : ℕ → ℕ) (vol next : Volume) : Type 0 where
    pub ordered : IsOrdered rank next.overlay
    pub checkpoint : next.checkpoint ≡ vol.checkpoint

  Keeps-delta :
      (rank : ℕ → ℕ) (vol next : Volume) (dir : ℕ) (delta : ℤ)
      → Keeps rank vol next
      → Keeps rank vol (add_ancestor_dir_delta base next dir delta)
  Keeps-delta rank vol next dir delta k = record {
    ordered =
        subst (IsOrdered rank) (sym (overlay-add_ancestor_dir_delta next dir delta)) k.ordered;
    checkpoint = checkpoint-add_ancestor_dir_delta next dir delta ∙ k.checkpoint;
  }

  Keeps-if :
      (rank : ℕ → ℕ) (vol next : Volume) (b : Bool) (dir : ℕ) (delta : ℤ)
      → Keeps rank vol next
      → Keeps rank vol (if b then next else add_ancestor_dir_delta base next dir delta)
  Keeps-if rank vol next true dir delta k = k
  Keeps-if rank vol next false dir delta k = Keeps-delta rank vol next dir delta k

  record_deletion-Keeps :
      (rank : ℕ → ℕ) (vol : Volume) (c : UsnChange)
      → (c.frn == 0) ≡ false
      → IsOrdered rank vol.overlay
      → Gives (record_deletion base vol c) (Keeps rank vol)
  unfolding record_deletion Gives
  record_deletion-Keeps rank vol c z h =
      let before = effective_accounting_size base vol c.frn in
      let parent =
        first_non_zero_frn (deletion c (overlay_record vol.overlay c.frn)).parent_frn
          (effective_parent_frn base vol c.frn) in
      let (overlay, e, o) = delete_in_overlay-IsOrdered base rank vol.overlay c z h in
      let next = with_overlay vol overlay in
      (
        if is_zero before
            then next
            else add_ancestor_dir_delta base next parent (int_negate before),
        rw (record_deletion, e) refl,
        Keeps-if rank vol next (is_zero before) parent (int_negate before)
            (record { ordered = o; checkpoint = refl }),
      )

  shadow-IsOrdered :
      (rank : ℕ → ℕ) (overlay : OverlaySegment) (id : Option ℕ)
      → IsOrdered rank overlay
      → IsOrdered rank (shadow base overlay id)
  unfolding shadow IsConsistent
  shadow-IsOrdered rank overlay none h = h
  shadow-IsOrdered rank overlay (some id) h = record {
    consistent = h.consistent;
    ranked = h.ranked;
  }

  shadow_count :
      (overlay : OverlaySegment) (id : Option ℕ)
      → length (shadow base overlay id).records ≡ length overlay.records
  unfolding shadow
  shadow_count overlay none = refl
  shadow_count overlay (some id) = refl

  account_update-Keeps :
      (rank : ℕ → ℕ) (vol : Volume) (c : UsnChange) (overlay : OverlaySegment)
      → IsOrdered rank overlay
      → Keeps rank vol (account_update base vol c overlay)
  unfolding account_update
  account_update-Keeps rank vol c overlay h =
      let before = effective_accounting_size base vol c.frn in
      let old_parent = effective_parent_frn base vol c.frn in
      let next = with_overlay (record vol { compact_attrs = true }) overlay in
      let after = effective_accounting_size base next c.frn in
      let after_parent =
        (get_or overlay.records (length vol.overlay.records) no_record).parent_frn in
      let left =
        if is_zero before
        then next
        else add_ancestor_dir_delta base next old_parent (int_negate before) in
      let kept : Keeps rank vol left =
        Keeps-if rank vol next (is_zero before) old_parent (int_negate before)
          (record { ordered = h; checkpoint = refl }) in
      Keeps-if rank vol left (is_zero after) (first_non_zero_frn after_parent old_parent) after kept

  with_info-IsOrdered :
      (rank : ℕ → ℕ) (host : Host) (overlay : OverlaySegment) (slot : ℕ) (path : List ℕ)
      → IsOrdered rank overlay
      → IsOrdered rank (with_info base host overlay slot path)
  unfolding with_info IsConsistent latest_overlay_slots_by_frn falls
  with_info-IsOrdered rank host overlay slot [] h = h
  with_info-IsOrdered rank host overlay slot (b ∷ path) h =
      elim (Option-cases (host.stat slot (b ∷ path))) [
        | inl e ↦ rw (with_info, e) h
        | inr ((size, mod_unix), e) ↦
            let rec = record (get_or overlay.records slot no_record) {
              size = size;
              mod_unix = mod_unix;
            } in
            rw (with_info, e)
              (record {
                consistent =
                    λ f. h.consistent f ∙ sym (lookup-latest_set 0 overlay.records slot rec f refl);
                ranked = IsRanked-set rank overlay.records slot rec refl h.ranked;
              })
      ]

  module _ (host : Host) (fuel : ℕ) where
    refresh-IsOrdered :
        (rank : ℕ → ℕ) (overlay : OverlaySegment) (slot : ℕ) (rec : CompactRecord)
        → get_elem? overlay.records slot ≡ some rec
        → rank rec.frn < fuel
        → IsOrdered rank overlay
        → Gives (refresh_overlay_file_info base host fuel overlay slot) (IsOrdered rank)
    unfolding refresh_overlay_file_info Gives
    refresh-IsOrdered rank overlay slot rec g b h =
        let (path, e) =
          overlay_record_path_ends host base rank overlay fuel slot rec h.consistent h.ranked g b in
        elim (Bool-cases (is_empty host.volume || leb (length overlay.records) slot)) [
          | inl y ↦ rw (refresh_overlay_file_info, y) (overlay, refl, h)
          | inr n ↦
              rw (refresh_overlay_file_info, n, e)
                (
                  with_info base host overlay slot path,
                  refl,
                  with_info-IsOrdered rank host overlay slot path h,
                )
        ]

    change_in_overlay-IsOrdered :
        (rank : ℕ → ℕ) (overlay : OverlaySegment) (c : UsnChange) (refresh_info : Bool)
        → (c.frn == 0) ≡ false
        → falls rank (changed_record base c (id_for_frn base c.frn)) ≡ true
        → rank c.frn < fuel
        → IsOrdered rank overlay
        → Gives (change_in_overlay base host fuel overlay c refresh_info) (IsOrdered rank)
    unfolding change_in_overlay IsConsistent Gives append_record shadow
    change_in_overlay-IsOrdered rank overlay c refresh_info z f b h =
        let id = id_for_frn base c.frn in
        let rec = changed_record base c id in
        let own : (rec.frn == 0) ≡ false = ap (λ f. f == 0) (changed_record_frn base c id) ∙ z in
        let appended = append_record (shadow base overlay id) rec in
        let next = record appended { watermark = length appended.records } in
        let right : IsOrdered rank appended =
          append_record-IsOrdered rank (shadow base overlay id) rec own f
            (shadow-IsOrdered rank overlay id h) in
        let ordered : IsOrdered rank next = record {
          consistent = right.consistent;
          ranked = right.ranked;
        } in
        let bound : rank rec.frn < fuel =
          subst (λ n. rank n < fuel) (sym (changed_record_frn base c id)) b in
        let at : get_elem? next.records (length overlay.records) ≡ some rec =
          ap (λ n. get_elem? next.records n) (sym (shadow_count overlay id))
          ∙ get_elem?-last (shadow base overlay id).records rec in
        elim refresh_info
          as (λ b.
            Gives
              (elim b [
                | true ↦ refresh_overlay_file_info base host fuel next (length overlay.records)
                | false ↦ some next
              ])
              (IsOrdered rank)) [
                | true ↦ refresh-IsOrdered rank next (length overlay.records) rec at bound ordered
                | false ↦ (next, refl, ordered)
              ]

    pub record_overlay_change-Keeps :
        (rank : ℕ → ℕ) (vol : Volume) (c : UsnChange) (refresh_info : Bool)
        → (c.frn == 0) ≡ false
        → falls rank (changed_record base c (id_for_frn base c.frn)) ≡ true
        → rank c.frn < fuel
        → IsOrdered rank vol.overlay
        → Gives (record_overlay_change base host fuel vol c refresh_info) (Keeps rank vol)
    unfolding record_overlay_change record_update Gives
    record_overlay_change-Keeps rank vol c refresh_info z f b h =
        let (deleted, e, k) = record_deletion-Keeps rank vol c z h in
        let (overlay, e', o) =
          change_in_overlay-IsOrdered rank vol.overlay c refresh_info z f b h in
        elim (Bool-cases (is_rename_old c.reason && not (is_rename_new c.reason))) [
          | inl y ↦
              rw (record_overlay_change, y) (vol, refl, record { ordered = h; checkpoint = refl })
          | inr n ↦ elim (Bool-cases (is_delete c.reason)) [
            | inl d ↦ rw (record_overlay_change, n, d) (deleted, e, k)
            | inr u ↦
                rw (record_overlay_change, n, u, record_update, e')
                  (
                    account_update base vol c overlay,
                    refl,
                    account_update-Keeps rank vol c overlay o,
                  )
          ]
        ]
