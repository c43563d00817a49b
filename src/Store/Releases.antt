-- ===== src/Store/Releases.antt =====
-- internal/store/release.go: taking a release down with its tracks, and bringing it back.
pub mod Cascade
pub mod Lookup
pub mod Buckets
pub mod Creation
use moan_subs.Prelude.{
  ℕ, ◌≡◌, Bool, true, false, ◌&&◌, List, [], ◌∷◌, Option, none, some, ◌==◌, if◌then◌else◌, any,
  find,
}
use moan_subs.Prelude.Result.{Result, ok, err, guard, ◌>>=◌, ◌>>◌}
use moan_subs.Prelude.Text.{Text}
use moan_subs.Store.Table.{update_where, is_id}
use moan_subs.Store.Schema.{Db, Track, Release, StoreError, not_found, unique_violation}
use moan_subs.Store.Tracks.{is_live, reason_or_null, withdraw_row, restore_row, index_holds}

abbrev pub is_release : ℕ → Release → Bool
is_release id r = r.id == id

abbrev pub live_in_release : ℕ → Track → Bool
live_in_release id t = t.release_id == id && is_live t

-- The tracks of a release that were withdrawn at a time.
abbrev pub stamped : ℕ → ℕ → Track → Bool
stamped id stamp t = t.release_id == id && is_id stamp t.withdrawn_at

abbrev pub withdraw_release_row : ℕ → Text → Release → Release
withdraw_release_row now reason r = record r {
  withdrawn_at = some now;
  withdrawn_reason = reason_or_null reason;
}

abbrev pub restore_release_row : Release → Release
restore_release_row r = record r { withdrawn_at = none; withdrawn_reason = none }

-- WithdrawRelease: the release and its live tracks get one time and one reason.
unfoldable pub withdraw_release : ℕ → Text → ℕ → Db → Result StoreError Db
withdraw_release id reason now db = do
  guard (any (is_release id) db.releases) not_found
  ok (record db {
    releases = update_where (is_release id) (withdraw_release_row now reason) db.releases;
    tracks = update_where (live_in_release id) (withdraw_row now reason) db.tracks;
  })

abbrev pub restore_stamped : ℕ → Option ℕ → List Track → List Track
restore_stamped id none tracks = tracks
restore_stamped id (some stamp) tracks = update_where (stamped id stamp) restore_row tracks

-- RestoreRelease: the time is read before it is cleared, and the tracks with that time come back.
unfoldable pub restore_release : ℕ → Db → Result StoreError Db
restore_release id db = elim (find (is_release id) db.releases) [
  | none ↦ err not_found
  | some r ↦ do
    let tracks = restore_stamped id r.withdrawn_at db.tracks
    guard (index_holds tracks) unique_violation
    ok (record db {
      releases = update_where (is_release id) restore_release_row db.releases;
      tracks = tracks;
    })
]
