-- ===== src/Store/Fits.antt =====
-- internal/store/fit.go: an account's standing report of whether a track fits a release, the counts
-- of a (track, release) pairing, and the label that the counts earn.
pub mod Verified
use moan_subs.Prelude.{
  ℕ, Bool, true, false, not, ◌&&◌, ◌||◌, List, [], ◌∷◌, Option, none, some, leb, ◌==◌,
  if◌then◌else◌, count, any,
}
use moan_subs.Prelude.Result.{Result, ok, guard, ◌>>=◌, ◌>>◌}
use moan_subs.Store.Table.{delete_where, is_id}
use moan_subs.Store.Table.Upsert.{upsert_where}
use moan_subs.Store.Schema.{Db, FitReport, Track, Release, StoreError, foreign_key}
use moan_subs.Store.Tracks.{track_is_head}

abbrev pub sync_verified_min_fits : ℕ
sync_verified_min_fits = 2

pub record FitCounts : Type 0 where
  pub fits : ℕ
  pub misfits : ℕ

unfoldable pub sync_verified : FitCounts → Bool
sync_verified c = c.misfits == 0 && leb sync_verified_min_fits c.fits

abbrev pub on_pairing : ℕ → ℕ → FitReport → Bool
on_pairing track release f = f.track_id == track && f.release_id == release

abbrev pub is_report : ℕ → ℕ → ℕ → FitReport → Bool
is_report track release account f = on_pairing track release f && f.account_id == account

abbrev pub is_fit : ℕ → ℕ → FitReport → Bool
is_fit track release f = on_pairing track release f && f.fits

abbrev pub is_misfit : ℕ → ℕ → FitReport → Bool
is_misfit track release f = on_pairing track release f && not f.fits

unfoldable pub recompute_fit_counts : ℕ → ℕ → List FitReport → FitCounts
recompute_fit_counts track release reports = record {
  fits = count (is_fit track release) reports;
  misfits = count (is_misfit track release) reports;
}

abbrev pub new_report : ℕ → ℕ → ℕ → Bool → ℕ → FitReport
new_report track release account fits now = record {
  track_id = track;
  release_id = release;
  account_id = account;
  fits = fits;
  created_at = now;
}

abbrev pub re_report : Bool → ℕ → FitReport → FitReport
re_report fits now f = record f { fits = fits; created_at = now }

-- INSERT … ON CONFLICT (track_id, release_id, account_id) DO UPDATE.
unfoldable pub put_report : ℕ → ℕ → ℕ → Bool → ℕ → List FitReport → List FitReport
put_report track release account fits now =
    upsert_where (is_report track release account) (re_report fits now)
      (new_report track release account fits now)

unfoldable pub report_references : ℕ → ℕ → ℕ → Db → Bool
report_references track release account db =
    any (λ t. t.id == track) db.tracks
    && any (λ r. r.id == release) db.releases
    && any (λ a. a.id == account) db.accounts

unfoldable pub upsert_fit_report : ℕ → ℕ → ℕ → Bool → ℕ → Db → Result StoreError (Db × FitCounts)
upsert_fit_report track release account fits now db = do
  guard (report_references track release account db) foreign_key
  let reports = put_report track release account fits now db.fit_reports
  ok (record db { fit_reports = reports }, recompute_fit_counts track release reports)

unfoldable pub retract_fit_report : ℕ → ℕ → ℕ → Db → Db × FitCounts
retract_fit_report track release account db =
    let reports = delete_where (is_report track release account) db.fit_reports in
    (record db { fit_reports = reports }, recompute_fit_counts track release reports)

-- The work of a release, when there is one.
abbrev pub same_work : Option ℕ → Option ℕ → Bool
same_work none other = false
same_work (some w) other = is_id w other

-- ValidFitPairing: the track's own release, or a release of the same work when the track is a head.
unfoldable pub valid_fit_pairing : ℕ → ℕ → Db → Bool
valid_fit_pairing track release db =
    any
      (λ t.
        t.id == track
        && any
            (λ home.
              home.id == t.release_id
              && (t.release_id == release
                  || (track_is_head t db.tracks
                      && any
                          (λ target. target.id == release && same_work home.work_id target.work_id)
                          db.releases)))
            db.releases)
      db.tracks
