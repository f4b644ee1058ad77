-- ===== src/Fuzzy/Window.antt =====
-- cmd/seekfs/fuzzy.go: `fuzzyNameDistance`, the best window of a name.
use seekfs.Common.{
  ℕ, zero, suc, ◌+◌, ◌-◌, Bool, true, false, ◌&&◌, List, length, take, drop, ltb, ◌==◌,
  if◌then◌else◌,
}
use seekfs.Fuzzy.Distance.{damerau_levenshtein_bounded}

pub record Best : Type 0 where
  pub distance : ℕ
  pub prefix : Bool
  pub start : ℕ

-- `nameRunes[start:start+width]`
abbrev pub window : List ℕ → ℕ → ℕ → List ℕ
window name start width = take width (drop start name)

-- One window with the distance `d`.
unfoldable pub consider : Best → ℕ → ℕ → Best
consider best start d =
    let at_prefix = start == 0 in
    let closer = ltb d best.distance in
    if closer
    then record { distance = d; prefix = at_prefix; start = start }
    else if (d == best.distance) && ltb start best.start
    then record best { start = start }
    else if (d == best.distance) && at_prefix
    then record best { prefix = true }
    else best

module _ (name term : List ℕ) (tau : ℕ) where
  -- `for width <= maxWidth`, for the widths that are left, up to a distance of 0.
  unfoldable pub width_loop : ℕ → ℕ → ℕ → Best → Best
  width_loop zero start width best = best
  width_loop (suc rounds) start width best =
      let next =
        consider best start (damerau_levenshtein_bounded (window name start width) term tau) in
      elim (next.distance == 0) [ true ↦ next | false ↦ width_loop rounds start (suc width) next ]

  abbrev pub min_width : ℕ
  min_width = if ltb (length term - tau) 1 then 1 else length term - tau

  abbrev pub max_width : ℕ → ℕ
  max_width start =
      if ltb (length name - start) (length term + tau)
      then length name - start
      else length term + tau

  unfoldable pub start_loop : ℕ → ℕ → Best → Best
  start_loop zero start best = best
  start_loop (suc rounds) start best =
      let next = width_loop (suc (max_width start) - min_width) start min_width best in
      elim (next.distance == 0) [ true ↦ next | false ↦ start_loop rounds (suc start) next ]

  -- The number of starts, `0` to `end`: none where `end` is negative.
  abbrev pub starts : ℕ
  starts =
      if ltb (length name + tau) (length term)
      then 0
      else if ltb (length name) (length name + tau - length term)
      then suc (length name)
      else suc (length name + tau - length term)

  -- The distance, whether it is a prefix's, where the window starts, and whether there is one.
  unfoldable pub fuzzy_name_distance : ℕ × Bool × ℕ × Bool
  fuzzy_name_distance =
      let best =
        start_loop starts 0 (record { distance = suc tau; prefix = false; start = length name }) in
      if length name == 0
      then (suc tau, false, 0, false)
      else if ltb tau best.distance
      then (best.distance, false, best.start, false)
      else (best.distance, best.prefix, best.start, true)
