-- ===== src/Store.antt =====
-- internal/store/: the node's database.
pub mod Table
pub mod Schema
pub mod Votes
pub mod Tracks
pub mod Releases
pub mod Fits
pub mod Invites
pub mod Works
pub mod Accounts
pub mod Sessions
pub mod Removals
pub mod StashIds
pub mod Offsets
pub mod Metadata
