-- ===== src/Hash.antt =====
-- hash/: the fingerprints that releases are keyed on.
pub mod PHash
pub mod OsHash
pub mod Hex
