-- ===== src/Lib.antt =====
-- A model of the core of MoanSubs, a server that matches subtitle tracks to video files by their
-- hashes, with theorems on it. The parts of the program and the files that model them:
--
--   hash/phash.go, hash/oshash.go       Hash: the perceptual hash (Hash.PHash), its text, its stored
--       int64 form, its distance and its five lookup blocks; the OpenSubtitles hash (Hash.OsHash).
--   internal/store/                     Store: the tables of the database and the operations on them.
--       Store.Table has the statements of SQL on lists of rows, Store.Schema the rows.
--     vote.go                           Store.Votes: a vote on a track, the tallies, the flagged queue.
--     subtitle_track.go                 Store.Tracks: tracks and their revision chains.
--     release.go                        Store.Releases: withdrawing and restoring a release.
--       Store.Releases.Lookup, Buckets and Creation: creating a release and the lookups by its hashes.
--     account.go                        Store.Accounts: creation, roles, disabling and purging; Tokens,
--       Passwords (package crypto and base64 are parameters) and Deletion.
--     session.go                        Store.Sessions: browser sessions.
--     removal.go                        Store.Removals: removal requests.
--     stash_id.go                       Store.StashIds: scene identities of other catalogues.
--     offset.go                         Store.Offsets: timing corrections and sibling tracks.
--     fit.go                            Store.Fits: reports that a track fits a release.
--     invite.go                         Store.Invites: registration codes, their budget and redemption.
--     work.go                           Store.Works: releases linked into works, and taken out again, up to
--       the commit; Store.Metadata.Regroup has the derivation that follows it.
--     metadata.go                       Store.Metadata: proposals and confirmations; Derive, what a release
--       shows from them, where the order in which a loop comes to the entries of a map is a parameter.
--     autoconfirm.go                    Store.Metadata.AutoConfirm: pins with no moderator.
--   internal/api/ratelimit.go           Api.ClientIp: the client address behind trusted proxies; package net
--       is a parameter. Api.Limiter: AllowN on the token buckets; the float64 arithmetic is a parameter,
--       with the exactness of small integers as its laws.
--   internal/api/metadata_mod.go, metadata_api.go, subtitles.go and mod.go
--       Api.Naming: the requests that come to what a release is called, one after another on the store.
--       Api.Naming.Contributing has contributeOne, and an upload from the release that it was found or
--       created for; Api.Naming.Requests lists the requests and serves a sequence of them. The entries of
--       one contribution are requests of their own there.
--   internal/work/infer.go              Work: which releases may be one video.
--   internal/subtitle/                  Subtitle: bounding how long a cue is on screen (clamp.go), the
--       kind and label of an upload (kind.go), and of subtitle.go the timing line (Subtitle.Timing), the
--       parser (Subtitle.Parse), the renderer (Subtitle.Render) and the sanitizing of texts
--       (Subtitle.Sanitize), where a regular expression is the scan that it stands for. A note is a
--       text, so that sanitizeNote finds no invalid UTF-8 in it to drop.
--
-- The store is explicit state: Db has one list of rows for each table, in the order of insertion, and
-- an operation of the Store takes a Db and returns a new one or an error, Result StoreError. A method
-- of the program runs as one transaction that locks the rows it counts, so an operation is one step;
-- a transaction that is refused is rolled back, so an error has no new state. `now` is the time of the
-- transaction. Foreign keys, checks and unique indexes are tests that an operation makes where the
-- schema has a constraint. A failure of the connection to the database is not modelled.
--
-- A PHash is a number below 2^64, with shifts and masks by division and bit_and. A text is a list of
-- code points. What depends on the tables of Unicode takes them as a parameter, Prelude.Unicode, with
-- what is relied on as its laws. The random bytes of an invite code, lower() of the database and the
-- hash of a token are arguments. All functions are structural recursions: there is no fuel.
--
-- Not modelled: the rest of internal/api (handlers and pages), the commands of
-- cmd/moansubs, the client and the plugin, which are input and output around these parts; the dump and
-- the migrations; the kind detection and the divergence of subtitles; and the statistics and Stash-box
-- parts of the store, but for the rows of stash-box keys that go with a deleted account. Of
-- internal/api/ratelimit.go RetryAfterN is not modelled: what a refill gives to the last token depends on
-- the rounding of float64. Commands that record proposals from the command line are not among the
-- requests of Api.Naming, nor is the deletion of an account.
--
-- Prelude has the shared types and lemmas, and Examples the sample data and the theorems at concrete
-- inputs.
pub mod Prelude
pub mod Hash
pub mod Store
pub mod Subtitle
pub mod Work
pub mod Api
pub mod Examples
