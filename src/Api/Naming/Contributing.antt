-- ===== src/Api/Naming/Contributing.antt =====
-- internal/api/metadata_api.go: an entry of POST /api/v1/metadata; and internal/api/subtitles.go: what an upload
-- says of the release that it was found to be of. Both come with the stash-box ids of the video.
use moan_subs.Prelude.{
  ℕ, Bool, true, false, not, List, [], ◌∷◌, Option, none, some, ltb, if◌then◌else◌,
}
use moan_subs.Prelude.Result.{Result, ok, err}
use moan_subs.Prelude.Text.{Text}
use moan_subs.Store.Table.{is_null}
use moan_subs.Store.Schema.{Db, Release, Metadata, StoreError, not_found}
use moan_subs.Store.Releases.Lookup.{get_release_by_id, get_release_by_oshash_any}
use moan_subs.Store.StashIds.{NewStashId, add_release_stash_ids}
use moan_subs.Store.Metadata.{MetadataProposal, record_proposal}
use moan_subs.Store.Metadata.Derive.{Candidate, derive_after_proposal}
use moan_subs.Api.Naming.{logged, maybe_auto_confirm, record_upload_metadata}

-- metadataEntry, once the checks of its fields have passed: a release id of zero is none, and an oshash is
-- as ParseOSHash gives it.
pub record MetadataEntry : Type 0 where
  pub release_id : ℕ
  pub oshash : Option Text
  pub metadata : Metadata
  pub stash_ids : List NewStashId

-- The proposal is with the first of the stash-box ids.
abbrev pub first_stash_id : List NewStashId → Option Text
first_stash_id [] = none
first_stash_id (s ∷ ids) = some s.stash_id

abbrev pub first_endpoint : List NewStashId → Option Text
first_endpoint [] = none
first_endpoint (s ∷ ids) = some s.endpoint

abbrev pub observed : ℕ → ℕ → Metadata → List NewStashId → MetadataProposal
observed release account m ids = record {
  release_id = release;
  proposed_by = some account;
  metadata = m;
  stash_id = first_stash_id ids;
  endpoint = first_endpoint ids;
}

-- Server.resolveMetadataRelease; an entry with neither key is refused, here as one that is not found.
abbrev pub resolve_by_oshash : Option Text → Db → Result StoreError Release
resolve_by_oshash none db = err not_found
resolve_by_oshash (some h) db = get_release_by_oshash_any h db

unfoldable pub resolve_metadata_release : MetadataEntry → Db → Result StoreError Release
resolve_metadata_release e db =
    if ltb 0 e.release_id then get_release_by_id e.release_id db else resolve_by_oshash e.oshash db

module _ (visit : List Candidate → List Candidate) where
  -- Server.contributeOne, from the proposal on.
  abbrev pub after_contributing :
      Bool
      → Option (List Text)
      → ℕ
      → ℕ
      → List NewStashId
      → ℕ
      → Result StoreError (Db × Bool)
      → Db
      → Db
  after_contributing enabled endpoints release account ids now (err e) db = db
  after_contributing enabled endpoints release account ids now (ok (recorded, false)) db = recorded
  after_contributing enabled endpoints release account ids now (ok (recorded, true)) db =
      let attached = logged (add_release_stash_ids release ids (some account) recorded) recorded in
      maybe_auto_confirm enabled endpoints release now
        (logged (derive_after_proposal visit release attached) attached)

  abbrev pub contribute_to :
      Bool → Option (List Text) → ℕ → MetadataEntry → ℕ → Result StoreError Release → Db → Db
  contribute_to enabled endpoints account e now (err x) db = db
  contribute_to enabled endpoints account e now (ok r) db =
      if not (is_null r.withdrawn_at)
      then db
      else after_contributing enabled endpoints r.id account e.stash_ids now
          (record_proposal (observed r.id account e.metadata e.stash_ids) now db) db

  unfoldable pub contribute_one : Bool → Option (List Text) → ℕ → MetadataEntry → ℕ → Db → Db
  contribute_one enabled endpoints account e now db =
      contribute_to enabled endpoints account e now (resolve_metadata_release e db) db

  -- Server.ingest, from the release that GetOrCreateRelease gave to the metadata: a failure to attach the ids
  -- ends it.
  abbrev pub after_attaching :
      Bool → Option (List Text) → MetadataProposal → ℕ → Result StoreError Db → Db → Db
  after_attaching enabled endpoints n now (err e) db = db
  after_attaching enabled endpoints n now (ok attached) db =
      record_upload_metadata visit enabled endpoints n now attached

  unfoldable pub upload_observed :
      Bool → Option (List Text) → Release → ℕ → Metadata → List NewStashId → ℕ → Db → Db
  upload_observed enabled endpoints r account m ids now db =
      if not (is_null r.withdrawn_at)
      then db
      else after_attaching enabled endpoints (observed r.id account m ids) now
          (add_release_stash_ids r.id ids (some account) db) db
