-- ===== src/Api/Naming/Requests.antt =====
-- internal/api/subtitles.go, metadata_api.go, metadata_mod.go and mod.go: the requests that come to names and
-- pins, one after another.
use moan_subs.Prelude.{ℕ, Bool, true, false, List, [], ◌∷◌, Option, ◌==◌}
use moan_subs.Prelude.Text.{Text}
use moan_subs.Store.Schema.{Db, Release, Metadata}
use moan_subs.Store.Releases.{withdraw_release, restore_release}
use moan_subs.Store.StashIds.{NewStashId, remove_release_stash_id}
use moan_subs.Store.Metadata.Derive.{Candidate}
use moan_subs.Api.Naming.{
  logged, handle_mod_release_confirm, handle_mod_release_unconfirm, purge_release_metadata,
  handle_mod_release_purge_work_metadata, handle_release_propose_metadata, handle_mod_release_link,
  handle_mod_release_unlink,
}
use moan_subs.Api.Naming.Contributing.{MetadataEntry, contribute_one, upload_observed}

-- A request that comes to what a release is called: of an account, with an upload, with an entry of a
-- contribution or with a correction; and of a moderator. Each entry of a contribution is a request of its own,
-- so that others may come in between.
pub data Request : Type 0 where
  upload : Bool → Option (List Text) → Release → ℕ → Metadata → List NewStashId → ℕ → Request
  contribute : Bool → Option (List Text) → ℕ → MetadataEntry → ℕ → Request
  propose : Bool → Option (List Text) → ℕ → Metadata → ℕ → ℕ → Request
  confirm : ℕ → ℕ → ℕ → Request
  unconfirm purge purge_work unlink restore : ℕ → Request
  link : ℕ → ℕ → Request
  withdraw : ℕ → Text → ℕ → Request
  remove_stash_id : ℕ → Text → Text → Request

-- A moderator's request that gives a pin or takes one away.
abbrev pub rules_on_pins : Request → Bool
rules_on_pins (upload enabled endpoints r account m ids now) = false
rules_on_pins (contribute enabled endpoints account e now) = false
rules_on_pins (propose enabled endpoints release m account now) = false
rules_on_pins (confirm release by now) = true
rules_on_pins (unconfirm release) = true
rules_on_pins (purge release) = true
rules_on_pins (purge_work release) = true
rules_on_pins (link a b) = false
rules_on_pins (unlink release) = false
rules_on_pins (withdraw release reason now) = false
rules_on_pins (restore release) = false
rules_on_pins (remove_stash_id release endpoint stash_id) = false

abbrev pub confirms : ℕ → Request → Bool
confirms i (upload enabled endpoints r account m ids now) = false
confirms i (contribute enabled endpoints account e now) = false
confirms i (propose enabled endpoints release m account now) = false
confirms i (confirm release by now) = release == i
confirms i (unconfirm release) = false
confirms i (purge release) = false
confirms i (purge_work release) = false
confirms i (link a b) = false
confirms i (unlink release) = false
confirms i (withdraw release reason now) = false
confirms i (restore release) = false
confirms i (remove_stash_id release endpoint stash_id) = false

module _ (visit : List Candidate → List Candidate) where
  unfoldable pub serve : Request → Db → Db
  serve (upload enabled endpoints r account m ids now) db =
      upload_observed visit enabled endpoints r account m ids now db
  serve (contribute enabled endpoints account e now) db =
      contribute_one visit enabled endpoints account e now db
  serve (propose enabled endpoints release m account now) db =
      handle_release_propose_metadata visit enabled endpoints release m account now db
  serve (confirm release by now) db = handle_mod_release_confirm visit release by now db
  serve (unconfirm release) db = handle_mod_release_unconfirm visit release db
  serve (purge release) db = purge_release_metadata visit release db
  serve (purge_work release) db = handle_mod_release_purge_work_metadata visit release db
  serve (link a b) db = handle_mod_release_link visit a b db
  serve (unlink release) db = handle_mod_release_unlink visit release db
  serve (withdraw release reason now) db = logged (withdraw_release release reason now db) db
  serve (restore release) db = logged (restore_release release db) db
  serve (remove_stash_id release endpoint stash_id) db =
      remove_release_stash_id release endpoint stash_id db

  unfoldable pub serve_all : List Request → Db → Db
  serve_all [] db = db
  serve_all (q ∷ qs) db = serve_all qs (serve q db)
