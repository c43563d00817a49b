-- ===== src/Store/StashIds.antt =====
-- internal/store/stash_id.go: the scene identities of other catalogues that are attached to a release.
pub mod Attached
use moan_subs.Prelude.{
  ℕ, Bool, true, false, not, ◌&&◌, ◌||◌, List, [], ◌∷◌, ◌++◌, Option, none, some, ◌==◌,
  if◌then◌else◌, any, keep,
}
use moan_subs.Prelude.Result.{Result, ok, err, guard, ◌>>=◌, ◌>>◌}
use moan_subs.Prelude.Text.{Text, text_eq}
use moan_subs.Store.Table.{delete_where, is_null}
use moan_subs.Store.Schema.{Db, Release, StashId, StoreError, foreign_key}
use moan_subs.Store.Removals.{account_exists}

-- What a caller hands over of a ReleaseStashID.
pub record NewStashId : Type 0 where
  pub endpoint : Text
  pub ehash : Text
  pub stash_id : Text

abbrev pub stash_id_row : ℕ → NewStashId → Option ℕ → StashId
stash_id_row release n added_by = record {
  release_id = release;
  endpoint = n.endpoint;
  ehash = n.ehash;
  stash_id = n.stash_id;
  added_by = added_by;
}

-- The primary key (release_id, endpoint, stash_id).
abbrev pub has_stash_key : ℕ → Text → Text → StashId → Bool
has_stash_key release endpoint stash_id s =
    s.release_id == release && text_eq s.endpoint endpoint && text_eq s.stash_id stash_id

unfoldable pub stash_references : ℕ → Option ℕ → Db → Bool
stash_references release added_by db =
    any (λ r. r.id == release) db.releases && account_exists added_by db.accounts

-- INSERT … ON CONFLICT (release_id, endpoint, stash_id) DO NOTHING.
abbrev pub attach_stash_id : ℕ → Option ℕ → NewStashId → Db → Result StoreError Db
attach_stash_id release added_by n db =
    if any (has_stash_key release n.endpoint n.stash_id) db.stash_ids
    then ok db
    else (guard (stash_references release added_by db) foreign_key
        >> ok (record db { stash_ids = db.stash_ids ++ stash_id_row release n added_by ∷ [] }))

-- AddReleaseStashIDs.
unfoldable pub add_release_stash_ids : ℕ → List NewStashId → Option ℕ → Db → Result StoreError Db
add_release_stash_ids release [] added_by db = ok db
add_release_stash_ids release (n ∷ ids) added_by db =
    attach_stash_id release added_by n db >>= λ stored.
    add_release_stash_ids release ids added_by stored

abbrev pub identifies : Text → Text → Release → StashId → Bool
identifies ehash stash_id r s =
    text_eq s.ehash ehash && text_eq s.stash_id stash_id && s.release_id == r.id

-- ReleasesByStashID.
unfoldable pub releases_by_stash_id : Text → Text → Db → List Release
releases_by_stash_id ehash stash_id db =
    keep (λ r. is_null r.withdrawn_at && any (identifies ehash stash_id r) db.stash_ids) db.releases

-- RemoveReleaseStashID.
unfoldable pub remove_release_stash_id : ℕ → Text → Text → Db → Db
remove_release_stash_id release endpoint stash_id db = record db {
  stash_ids = delete_where (has_stash_key release endpoint stash_id) db.stash_ids;
}
