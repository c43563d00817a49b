-- ===== src/Api/Naming.antt =====
-- internal/api/subtitles.go, metadata_api.go, metadata_mod.go and mod.go: the requests that move what a release is
-- called, each on the store as it left it. The checks of the session and of the form are not part of it;
-- errors are logged, so a request always leaves a database.
pub mod Contributing
pub mod Requests
pub mod Keeping
pub mod Steps
pub mod History
pub mod Unpins
use moan_subs.Prelude.{
  ℕ, Bool, true, false, not, ◌||◌, List, [], ◌∷◌, Option, none, some, ltb, ◌==◌, if◌then◌else◌,
  find,
}
use moan_subs.Prelude.Result.{Result, ok, err}
use moan_subs.Prelude.Text.{Text, codes}
use moan_subs.Store.Schema.{Db, Release, Metadata, StoreError}
use moan_subs.Store.Releases.{is_release}
use moan_subs.Store.Releases.Lookup.{get_release_by_id}
use moan_subs.Store.Metadata.{
  MetadataProposal, record_proposal, delete_proposal, confirm_metadata, unconfirm_metadata,
  purge_proposals,
}
use moan_subs.Store.Metadata.Derive.{
  Candidate, work_release_ids, derive_work, derive_after_proposal,
}
use moan_subs.Store.Metadata.Regroup.{link_and_derive, unlink_and_derive}
use moan_subs.Store.Metadata.AutoConfirm.{Outcome, auto_confirm_if_eligible}

abbrev pub default_auto_confirm_endpoints : List Text
default_auto_confirm_endpoints =
    codes "https://stashdb.org/graphql" ∷ codes "https://theporndb.net/graphql" ∷ []

-- The form has no field for a stash-box id.
abbrev pub proposed : ℕ → ℕ → Metadata → MetadataProposal
proposed release account m = record {
  release_id = release;
  proposed_by = some account;
  metadata = m;
  stash_id = none;
  endpoint = none;
}

-- A call whose error is logged.
abbrev pub logged : Result StoreError Db → Db → Db
logged (ok db') db = db'
logged (err e) db = db

abbrev pub pinned_or_logged : Result StoreError (Db × Outcome) → Db → Db
pinned_or_logged (ok (db', o)) db = db'
pinned_or_logged (err e) db = db

abbrev pub or_default : Option (List Text) → List Text
or_default none = default_auto_confirm_endpoints
or_default (some endpoints) = endpoints

abbrev pub linked_or_logged : Result StoreError (Db × ℕ) → Db → Db
linked_or_logged (ok (linked, w)) db = linked
linked_or_logged (err e) db = db

-- Server.maybeAutoConfirm, with Server.AutoConfirm and Server.AutoConfirmEndpoints.
unfoldable pub maybe_auto_confirm : Bool → Option (List Text) → ℕ → ℕ → Db → Db
maybe_auto_confirm enabled endpoints release now db =
    if not enabled
    then db
    else pinned_or_logged (auto_confirm_if_eligible release (or_default endpoints) now db) db

module _ (visit : List Candidate → List Candidate) where
  -- Server.recordUploadMetadata, from the proposal on.
  abbrev pub after_recording :
      Bool → Option (List Text) → ℕ → ℕ → Result StoreError (Db × Bool) → Db → Db
  after_recording enabled endpoints release now (err e) db = db
  after_recording enabled endpoints release now (ok (recorded, false)) db = recorded
  after_recording enabled endpoints release now (ok (recorded, true)) db =
      maybe_auto_confirm enabled endpoints release now
        (logged (derive_after_proposal visit release recorded) recorded)

  unfoldable pub record_upload_metadata : Bool → Option (List Text) → MetadataProposal → ℕ → Db → Db
  record_upload_metadata enabled endpoints n now db =
      after_recording enabled endpoints n.release_id now (record_proposal n now db) db

  -- handleModReleaseConfirm, by a moderator.
  abbrev pub confirm_shown : ℕ → ℕ → ℕ → Result StoreError Release → Db → Db
  confirm_shown release by now (err e) db = db
  confirm_shown release by now (ok r) db =
      logged (confirm_metadata release (some by) r.metadata now db) db

  unfoldable pub handle_mod_release_confirm : ℕ → ℕ → ℕ → Db → Db
  handle_mod_release_confirm release by now db =
      confirm_shown release by now (get_release_by_id release db) db

  -- handleModReleaseUnconfirm.
  unfoldable pub handle_mod_release_unconfirm : ℕ → Db → Db
  handle_mod_release_unconfirm release db =
      let unconfirmed = unconfirm_metadata release db in
      logged (derive_after_proposal visit release unconfirmed) unconfirmed

  -- purgeReleaseMetadata.
  unfoldable pub purge_release_metadata : ℕ → Db → Db
  purge_release_metadata release db =
      let purged = purge_proposals (release ∷ []) db in
      logged (derive_after_proposal visit release purged) purged

  -- handleModReleasePurgeWorkMetadata; a release of no work has only its own.
  abbrev pub purge_work_or_own : ℕ → Option ℕ → Db → Db
  purge_work_or_own release none db = purge_release_metadata release db
  purge_work_or_own release (some w) db =
      let purged = purge_proposals (work_release_ids w db) db in
      logged (derive_work visit w purged) purged

  abbrev pub purge_work_of : ℕ → Result StoreError Release → Db → Db
  purge_work_of release (err e) db = purge_release_metadata release db
  purge_work_of release (ok r) db = purge_work_or_own release r.work_id db

  unfoldable pub handle_mod_release_purge_work_metadata : ℕ → Db → Db
  handle_mod_release_purge_work_metadata release db =
      purge_work_of release (get_release_by_id release db) db

  -- handleReleaseProposeMetadata, from the proposal on: one that says nothing withdraws the account's own.
  abbrev pub then_auto_confirm : Bool → Option (List Text) → ℕ → ℕ → Result StoreError Db → Db → Db
  then_auto_confirm enabled endpoints release now (err e) recorded = recorded
  then_auto_confirm enabled endpoints release now (ok derived) recorded =
      maybe_auto_confirm enabled endpoints release now derived

  abbrev pub withdrawn : ℕ → Db × Bool → Db
  withdrawn release (left, false) = left
  withdrawn release (left, true) = logged (derive_after_proposal visit release left) left

  abbrev pub after_proposing :
      Bool → Option (List Text) → ℕ → ℕ → ℕ → Result StoreError (Db × Bool) → Db → Db
  after_proposing enabled endpoints release account now (err e) db = db
  after_proposing enabled endpoints release account now (ok (recorded, false)) db =
      withdrawn release (delete_proposal release account recorded)
  after_proposing enabled endpoints release account now (ok (recorded, true)) db =
      then_auto_confirm enabled endpoints release now (derive_after_proposal visit release recorded)
        recorded

  unfoldable pub handle_release_propose_metadata :
      Bool → Option (List Text) → ℕ → Metadata → ℕ → ℕ → Db → Db
  handle_release_propose_metadata enabled endpoints release m account now db =
      after_proposing enabled endpoints release account now
        (record_proposal (proposed release account m) now db) db

  -- handleModReleaseLink; the id of the other release is positive.
  unfoldable pub handle_mod_release_link : ℕ → ℕ → Db → Db
  handle_mod_release_link a b db =
      if not (ltb 0 b) || b == a then db else linked_or_logged (link_and_derive visit a b db) db

  -- handleModReleaseUnlink.
  unfoldable pub handle_mod_release_unlink : ℕ → Db → Db
  handle_mod_release_unlink release db = logged (unlink_and_derive visit release db) db
