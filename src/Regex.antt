-- ===== src/Regex.antt =====
-- cmd/seekfs/regex_required_literals.go: the literal runs that every match of a regular expression
-- contains.
pub mod Tree
pub mod Language
pub mod Sound
pub mod Scan
pub mod Parse
pub mod Required
pub mod Fuel
pub mod Runs
