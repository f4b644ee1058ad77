-- ===== src/Replay.antt =====
-- cmd/seekfs/service_replay.go and service_runtime.go: the replay of journal changes on a volume's overlay.
pub mod Volume
pub mod Path
pub mod BaseIds
pub mod Owned
pub mod Sizes
pub mod Marks
pub mod Subtree
pub mod Cascade
pub mod Doom
pub mod Resolve
pub mod Latest
pub mod Deleted
pub mod Victims
pub mod Descendants
pub mod Entries
pub mod Ranked
pub mod Ordered
pub mod Keeps
pub mod Dead
pub mod Lost
pub mod Apply
pub mod Change
pub mod Fold
pub mod Carry
pub mod Log
pub mod Binary
pub mod Filter
pub mod Runs
