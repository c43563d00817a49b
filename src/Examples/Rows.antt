-- ===== src/Examples/Rows.antt =====
-- The theorems on internal/store/ at the rows of the sample.
use moan_subs.Prelude.{
  ℕ, ◌≡◌, ◌≢◌, refl, true, false, ◌&&◌, [], ◌∷◌, ◌++◌, none, some, arith, leb, ◌==◌, if◌then◌else◌,
  count, any, All,
}
use moan_subs.Prelude.Int.{pos}
use moan_subs.Prelude.Result.{ok, ◌>>=◌}
use moan_subs.Prelude.Text.{codes}
use moan_subs.Store.Table.{delete_where, update_where}
use moan_subs.Store.Schema.{Db, Track}
use moan_subs.Store.Votes.{
  upsert_vote, put_vote, recompute_vote_counts, vote_allowed, vote_references, reason_allowed,
  note_allowed,
}
use moan_subs.Store.Votes.Tallies.{IsTallied, upsert_vote-IsTallied}
use moan_subs.Store.Tracks.{
  track_is_head, track_row, is_live_in, max_revision, supersede_track, kind_allowed,
  track_references, index_holds, successors_unique, withdraw_row,
}
use moan_subs.Store.Tracks.Heads.{IsChained, is_head_in, one_head}
use moan_subs.Store.Tracks.Supersede.{IsLinked, supersede_track-head}
use moan_subs.Store.Releases.{withdraw_release, restore_release, is_release, live_in_release}
use moan_subs.Store.Releases.Cascade.{restore-withdraw_release, restore_after_two}
use moan_subs.Store.Fits.{
  FitCounts, sync_verified, upsert_fit_report, recompute_fit_counts, is_report, put_report,
  report_references,
}
use moan_subs.Store.Fits.Verified.{verified-upsert_fit_report}
use moan_subs.Examples.Data.{sample, draft, second_revision}

tallied : IsTallied sample
tallied = ((refl, refl), ((refl, refl), tt))

allowed : vote_allowed (pos 1) none none ≡ true
unfolding vote_allowed reason_allowed note_allowed
allowed = refl

present : vote_references 11 1 sample ≡ true
unfolding vote_references
present = refl

upsert_vote-IsTallied_example :
    (db' : Db) × (up : ℕ) × (down : ℕ) × (upsert_vote 11 1 (pos 1) none none 20 sample
      ≡ ok (db', (up, down)))
    × IsTallied db'
    × (up ≡ 1)
    × (down ≡ 0)
upsert_vote-IsTallied_example =
    upsert_vote-IsTallied 11 1 (pos 1) none none 20 sample tallied (omega arith) allowed present

voted : Db × (ℕ × ℕ)
voted = recompute_vote_counts 11 (record sample { votes = put_vote 11 1 (pos 1) none none 20 [] })

accepted_vote : upsert_vote 11 1 (pos 1) none none 20 sample ≡ ok (voted.0, voted.1)
unfolding upsert_vote vote_allowed reason_allowed note_allowed vote_references voted
accepted_vote = refl

chained : IsChained sample.tracks
chained root n = ground arith

one_head_example :
    count (is_head_in 10 sample.tracks) sample.tracks
    ≡ (if any (is_live_in 10) sample.tracks then 1 else 0)
one_head_example = one_head 10 sample.tracks chained

linked : IsLinked sample.tracks
linked = (
  ((λ h. absurd (cc)), ((λ h. (refl, omega arith)), tt)),
  (((λ h. absurd (cc)), ((λ h. absurd (cc)), tt)), tt),
)

head : track_is_head second_revision sample.tracks ≡ true
unfolding track_is_head
head = refl

kind_of_draft : kind_allowed (codes "default") none ≡ true
unfolding kind_allowed
kind_of_draft = refl

references_of_draft : track_references (track_row draft 12 30 10 3 (some 11)) sample ≡ true
unfolding track_references
references_of_draft = refl

third : Track
third = track_row draft 12 30 10 3 (some 11)

supersede_track-head_example :
    (supersede_track 11 draft 30 sample
      ≡ ok (record sample { tracks = sample.tracks ++ third ∷ []; next_track = 13 }, 12, 3))
    × (track_is_head third (sample.tracks ++ third ∷ []) ≡ true)
    × (track_is_head second_revision (sample.tracks ++ third ∷ []) ≡ false)
    × ((s : Track)
        → s.root_id ≢ 10
        → track_is_head s (sample.tracks ++ third ∷ []) ≡ track_is_head s sample.tracks)
unfolding third max_revision
supersede_track-head_example =
    supersede_track-head 11 30 draft sample second_revision linked refl head refl refl refl
      kind_of_draft references_of_draft

unique : index_holds sample.tracks ≡ true
unfolding successors_unique
unique = refl

unique_down :
    index_holds (update_where (live_in_release 1) (withdraw_row 40 (codes "a")) sample.tracks)
    ≡ true
unfolding successors_unique
unique_down = refl

restore-withdraw_release_example :
    (withdraw_release 1 (codes "takedown") 40 sample >>= λ down. restore_release 1 down) ≡ ok sample
restore-withdraw_release_example =
    restore-withdraw_release 1 40 (codes "takedown") sample refl
      ((λ h. (refl, refl)), ((λ h. (refl, refl)), tt))
      (((λ h. refl), λ e. absurd (cc)), (((λ h. refl), λ e. absurd (cc)), tt)) unique

restore_after_two_example :
    (db' : Db) × ((withdraw_release 1 (codes "a") 40 sample
        >>= (λ down. withdraw_release 1 (codes "b") 50 down >>= restore_release 1))
      ≡ ok db')
    × All (λ t. live_in_release 1 t ≡ false) db'.tracks
    × All (λ r. is_release 1 r ≡ true → r.withdrawn_at ≡ none) db'.releases
restore_after_two_example =
    restore_after_two 1 40 50 (codes "a") (codes "b") sample (λ e. absurd (omega arith)) refl
      ((λ e. absurd (cc)), ((λ e. absurd (cc)), tt)) unique_down

reported : Db × FitCounts
reported =
    let reports = put_report 11 2 1 true 20 [] in
    (record sample { fit_reports = reports }, recompute_fit_counts 11 2 reports)

accepted_report : upsert_fit_report 11 2 1 true 20 sample ≡ ok (reported.0, reported.1)
unfolding upsert_fit_report report_references reported
accepted_report = refl

verified-upsert_fit_report_example :
    let others = recompute_fit_counts 11 2 (delete_where (is_report 11 2 1) sample.fit_reports) in
    sync_verified reported.1 ≡ (true && others.misfits == 0 && leb 1 others.fits)
verified-upsert_fit_report_example =
    verified-upsert_fit_report 11 2 1 true 20 sample reported.0 reported.1 (λ t r a. omega arith)
      accepted_report
