-- ===== src/Examples.antt =====
-- Sample data, and each theorem at a concrete input.
mod Data
mod Accounts
mod Records
mod Subtitles
mod Hashes
mod Rows
mod Invites
mod Works
mod Api
mod Scenes
mod Inference
mod Corrections
mod Limits
