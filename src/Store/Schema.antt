-- ===== src/Store/Schema.antt =====
-- The rows of internal/store/migrations/ that the modelled operations read and write. A bigint id
-- and a timestamp are numbers; a nullable column is an Option.
use moan_subs.Prelude.{ℕ, Bool, List, [], Option, none, some}
use moan_subs.Prelude.Int.{ℤ}
use moan_subs.Prelude.Result.{Result, ok, err}
use moan_subs.Prelude.Text.{Text}

pub data Role : Type 0 where
  user moderator admin : Role

pub data Authorship : Type 0 where
  shared credited uncredited : Authorship

pub record Account : Type 0 where
  pub id : ℕ
  pub name : Text
  pub token_hash : Text
  pub password_hash : Option Text
  pub token_enc : Option Text
  pub disabled : Bool
  pub disabled_reason : Option Text
  pub disabled_at : Option ℕ
  pub role : Role
  pub invited_by : Option ℕ
  pub trusted : Bool

-- What is said of a video: the columns title, release_date, studio and performers that a release, a
-- proposal and a confirmation have. No performers are the empty list.
pub record Metadata : Type 0 where
  pub title : Option Text
  pub release_date : Option Text
  pub studio : Option Text
  pub performers : List Text

abbrev pub no_metadata : Metadata
no_metadata = record { title = none; release_date = none; studio = none; performers = [] }

-- The phash is stored as an int64 and its five blocks as an int2 each, in their order; no blocks stand
-- for five NULLs.
pub record Release : Type 0 where
  pub id : ℕ
  pub work_id : Option ℕ
  pub oshash : Text
  pub phash : Option ℤ
  pub phash_blocks : List ℤ
  pub stem : Option Text
  pub duration_ms : ℕ
  pub metadata : Metadata
  pub autoconfirm_blocked : Bool
  pub withdrawn_at : Option ℕ
  pub withdrawn_reason : Option Text

pub record Track : Type 0 where
  pub id : ℕ
  pub release_id : ℕ
  pub lang : Text
  pub body : Text
  pub generated : Bool
  pub provenance : Option Text
  pub license : Text
  pub source : Option Text
  pub uploader_id : Option ℕ
  pub created_at : ℕ
  pub downloads : ℕ
  pub withdrawn_at : Option ℕ
  pub withdrawn_reason : Option Text
  pub up : ℕ
  pub down : ℕ
  pub kind : Text
  pub kind_label : Option Text
  pub root_id : ℕ
  pub revision : ℕ
  pub supersedes_id : Option ℕ
  pub revision_locked : Bool
  pub authorship : Authorship
  pub declared_generated : Bool

-- track_votes, keyed by (track_id, account_id).
pub record Vote : Type 0 where
  pub track_id : ℕ
  pub account_id : ℕ
  pub value : ℤ
  pub reason : Option Text
  pub note : Option Text
  pub created_at : ℕ
  pub updated_at : ℕ

-- track_release_fit_reports, keyed by (track_id, release_id, account_id).
pub record FitReport : Type 0 where
  pub track_id : ℕ
  pub release_id : ℕ
  pub account_id : ℕ
  pub fits : Bool
  pub created_at : ℕ

pub record Invite : Type 0 where
  pub code : Text
  pub created_by : ℕ
  pub max_uses : Option ℕ
  pub uses : ℕ
  pub expires_at : Option ℕ
  pub disabled_at : Option ℕ
  pub created_at : ℕ

pub record Session : Type 0 where
  pub id : Text
  pub account_id : ℕ
  pub expires_at : ℕ

-- release_stash_ids, keyed by (release_id, endpoint, stash_id).
pub record StashId : Type 0 where
  pub release_id : ℕ
  pub endpoint : Text
  pub ehash : Text
  pub stash_id : Text
  pub added_by : Option ℕ

-- track_release_offsets, keyed by (track_id, release_id).
pub record Offset : Type 0 where
  pub track_id : ℕ
  pub release_id : ℕ
  pub offset_ms : ℤ
  pub source : Text

pub record RemovalRequest : Type 0 where
  pub id : ℕ
  pub track_id : ℕ
  pub account_id : Option ℕ
  pub reason : Text
  pub note : Option Text
  pub contact : Option Text
  pub created_at : ℕ
  pub handled_at : Option ℕ
  pub handled_by : Option ℕ
  pub handled_action : Option Text

-- release_metadata_proposals, with at most one row of an account for a release.
pub record Proposal : Type 0 where
  pub id : ℕ
  pub release_id : ℕ
  pub proposed_by : Option ℕ
  pub metadata : Metadata
  pub stash_id : Option Text
  pub endpoint : Option Text
  pub created_at : ℕ

-- release_metadata_confirmed, keyed by release_id.
pub record Confirmation : Type 0 where
  pub release_id : ℕ
  pub confirmed_by : Option ℕ
  pub metadata : Metadata
  pub confirmed_at : ℕ

-- account_stashbox_keys, keyed by (account_id, endpoint), with the sealed key.
pub record StashboxKey : Type 0 where
  pub account_id : ℕ
  pub endpoint : Text
  pub key_enc : Text
  pub created_at : ℕ

-- The tables, with the next value of each identity column that is filled by an insert.
pub record Db : Type 0 where
  pub accounts : List Account
  pub releases : List Release
  pub tracks : List Track
  pub votes : List Vote
  pub fit_reports : List FitReport
  pub invites : List Invite
  pub sessions : List Session
  pub stash_ids : List StashId
  pub works : List ℕ
  pub offsets : List Offset
  pub removals : List RemovalRequest
  pub proposals : List Proposal
  pub confirmations : List Confirmation
  pub stashbox_keys : List StashboxKey
  pub next_account : ℕ
  pub next_release : ℕ
  pub next_removal : ℕ
  pub next_proposal : ℕ
  pub next_track : ℕ
  pub next_work : ℕ

-- What an operation refuses with: the package's own errors, and the constraint of the schema that a
-- statement violates. A refused transaction is rolled back, so it has no new state.
pub data StoreError : Type 0 where
  not_found not_head track_locked track_withdrawn mismatch : StoreError
  invite_invalid name_taken last_admin self_link : StoreError
  invalid_credentials no_password bad_block bad_distance unknown_source : StoreError
  foreign_key check_violation unique_violation : StoreError
  budget_exhausted : ℕ → ℤ → StoreError

-- The row that a query found; pgx.ErrNoRows is ErrNotFound.
abbrev pub or_not_found {ℓ} : {A : Type ℓ} → Option A → Result StoreError A
or_not_found none = err not_found
or_not_found (some r) = ok r
