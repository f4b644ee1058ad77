-- ===== src/Tree/Ranges.antt =====
-- cmd/seekfs/index_format.go: `buildSubtreeRanges`. The state is what the closure `walk` writes to; the
-- recursion has a unit of fuel for each call inside another, and each of them enters a record.
-- An id is below 2 ^ 32, so `uint32(id)` is the id.
use seekfs.Common.{
  ℕ, zero, suc, ◌-◌, ◌^◌, ◌%◌, Bool, true, false, ◌||◌, List, [], ◌∷◌, ◌++◌, length, get_or, set,
  replicate, leb, ◌==◌, if◌then◌else◌,
}
use seekfs.Replay.Volume.{Base, record_count, child_ids_for_record}

pub record Walk : Type 0 where
  pub seen : List Bool
  pub order : List ℕ
  pub start : List ℕ
  pub end : List ℕ

-- `for _, childID := range children { walk(int(childID)) }`
unfoldable pub walk_each : (ℕ → Walk → Walk) → List ℕ → Walk → Walk
walk_each visit [] w = w
walk_each visit (id ∷ ids) w = walk_each visit ids (visit id w)

unfoldable pub enter : ℕ → Walk → Walk
enter id w = record w {
  seen = set w.seen id true;
  start = set w.start id (length w.order % 2 ^ 32);
  order = w.order ++ (id ∷ []);
}

unfoldable pub leave : ℕ → Walk → Walk
leave id w = record w { end = set w.end id (length w.order % 2 ^ 32) }

module _ (base : Base) where
  unfoldable pub walk : ℕ → ℕ → Walk → Walk
  walk zero id w = w
  walk (suc fuel) id w = elim (leb (record_count base) id || get_or w.seen id false) [
    | true ↦ w
    | false ↦ leave id (walk_each (walk fuel) (child_ids_for_record base id) (enter id w))
  ]

  -- `for id := 0; id < recordCount; id++ { if !seen[id] { walk(id) } }`
  unfoldable pub walk_rest : ℕ → ℕ → Walk → Walk
  walk_rest zero id w = w
  walk_rest (suc rounds) id w =
      walk_rest rounds (suc id)
        (elim (get_or w.seen id false) [ true ↦ w | false ↦ walk (suc (record_count base)) id w ])

  -- Without offsets of children the ranges stay.
  unfoldable pub build_subtree_ranges : List ℕ → Base
  build_subtree_ranges root_ids =
      let n = record_count base in
      let empty : Walk = record {
        seen = replicate n false;
        order = [];
        start = replicate n (2 ^ 32 - 1);
        end = replicate n 0;
      } in
      let rooted = walk_each (walk (suc n)) root_ids empty in
      let w = walk_rest n 0 rooted in
      if length base.child_offsets == 0
      then base
      else record base { subtree_order = w.order; subtree_start = w.start; subtree_end = w.end }
