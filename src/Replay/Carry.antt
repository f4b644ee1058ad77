-- ===== src/Replay/Carry.antt =====
-- cmd/seekfs/service_runtime.go: what is carried over a new base are the changes behind the snapshot.
use seekfs.Common.{ℕ, ◌+◌, Option, none, some, leb, if◌then◌else◌}

-- An entry at `m` or behind it.
abbrev slot_from : ℕ → Option ℕ → Option ℕ
slot_from m none = none
slot_from m (some slot) = if leb m slot then some slot else none

-- An entry `k` places further.
abbrev shifted : ℕ → Option ℕ → Option ℕ
shifted k none = none
shifted k (some slot) = some (k + slot)
