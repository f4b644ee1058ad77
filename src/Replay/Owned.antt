-- ===== src/Replay/Owned.antt =====
-- cmd/seekfs/service_replay.go: the changes inside directories that hold the program's own files.
use seekfs.Common.{
  ℕ, Bool, true, false, ◌||◌, ◌&&◌, not, List, [], ◌∷◌, ◌==◌, if◌then◌else◌, filter,
}
use seekfs.Wal.Batch.{UsnChange}
use seekfs.Replay.BaseIds.{member}
use seekfs.Replay.Volume.{Base, is_create, is_delete, is_rename_old, is_rename_new, is_dir_attr}

-- `len(vol.ownedDynamicDirFRNs) > 0`
abbrev pub has_any : List ℕ → Bool
has_any [] = false
has_any (x ∷ xs) = true

-- `delete(m, frn)`
abbrev pub without : ℕ → List ℕ → List ℕ
without frn xs = filter (λ x. not (x == frn)) xs

-- `m[frn] = struct{}{}`
abbrev pub with_frn : ℕ → List ℕ → List ℕ
with_frn frn xs = if member frn xs then xs else frn ∷ xs

unfoldable pub note_owned_child_dir : List ℕ → UsnChange → List ℕ
note_owned_child_dir dynamic c =
    let created = is_create c.reason || is_rename_new c.reason in
    let removed = is_delete c.reason || (is_rename_old c.reason && not (is_rename_new c.reason)) in
    if not (is_dir_attr c.attr)
    then dynamic
    else if not created && not removed
    then dynamic
    else if created
    then with_frn c.frn dynamic
    else without c.frn dynamic

unfoldable pub retire_owned_dir : List ℕ → ℕ → List ℕ
retire_owned_dir dynamic frn = without frn dynamic

module _ (base : Base) where
  unfoldable pub owned_replay_parent : List ℕ → ℕ → Bool
  owned_replay_parent dynamic parent =
      if parent == 0
      then false
      else if member parent base.owned_dir_frns
      then true
      else member parent dynamic

  -- Whether the change is consumed, and the set of directories behind it.
  unfoldable pub consume_owned_replay_change : List ℕ → UsnChange → Bool × List ℕ
  consume_owned_replay_change dynamic c =
      if c.frn == 0
      then (false, dynamic)
      else if owned_replay_parent dynamic c.parent_frn
      then (true, note_owned_child_dir dynamic c)
      else if has_any dynamic
      then (false, retire_owned_dir dynamic c.frn)
      else (false, dynamic)

  -- `for _, change := range changes`
  unfoldable pub filter_loop : List ℕ → List UsnChange → List UsnChange × List ℕ
  filter_loop dynamic [] = ([], dynamic)
  filter_loop dynamic (c ∷ cs) =
      let (consumed, next) = consume_owned_replay_change dynamic c in
      let (kept, last) = filter_loop next cs in if consumed then (kept, last) else (c ∷ kept, last)

  unfoldable pub filter_owned_replay_changes : List ℕ → List UsnChange → List UsnChange × List ℕ
  filter_owned_replay_changes dynamic changes =
      if not (has_any base.owned_dir_frns) && not (has_any dynamic)
      then (changes, dynamic)
      else filter_loop dynamic changes
