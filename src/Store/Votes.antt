-- ===== src/Store/Votes.antt =====
-- internal/store/vote.go: one standing vote of an account on a track, and the tallies on the track's
-- row. A call is one transaction; `now` is the transaction's time.
pub mod Tallies
pub mod Standing
pub mod Flagged
use moan_subs.Prelude.{
  ℕ, zero, suc, ◌+◌, ◌≡◌, refl, Bool, true, false, not, ◌&&◌, ◌||◌, List, [], ◌∷◌, ◌++◌, Option,
  none, some, ltb, leb, ◌==◌, if◌then◌else◌, count, any, keep, find, length, map,
}
use moan_subs.Prelude.Int.{ℤ, pos, negsuc, eq_ℤ}
use moan_subs.Prelude.Result.{Result, ok, err, guard, ◌>>=◌, ◌>>◌}
use moan_subs.Prelude.Text.{Text, codes, text_eq}
use moan_subs.Store.Table.{update_where, delete_where, is_null}
use moan_subs.Store.Table.Upsert.{upsert_where}
use moan_subs.Store.Schema.{Db, Vote, Track, Account, StoreError, foreign_key, check_violation}

abbrev pub is_vote : ℕ → ℕ → Vote → Bool
is_vote track account v = v.track_id == track && v.account_id == account

-- Rows that the tallies of a track count: those with value 1, and those with value -1.
abbrev pub is_up : ℕ → Vote → Bool
is_up track v = v.track_id == track && eq_ℤ v.value (pos 1)

abbrev pub is_down : ℕ → Vote → Bool
is_down track v = v.track_id == track && eq_ℤ v.value (negsuc 0)

-- The counts of recomputeVoteCounts, and its UPDATE of the track's row.
unfoldable pub count_votes : ℕ → List Vote → ℕ × ℕ
count_votes track votes = (count (is_up track) votes, count (is_down track) votes)

abbrev pub set_tallies : ℕ × ℕ → Track → Track
set_tallies counts t = record t { up = counts.0; down = counts.1 }

unfoldable pub recompute_vote_counts : ℕ → Db → Db × (ℕ × ℕ)
unfolding count_votes
recompute_vote_counts track db =
    let counts = count_votes track db.votes in
    (
      record db { tracks = update_where (λ t. t.id == track) (set_tallies counts) db.tracks },
      counts,
    )

-- The constraints of track_votes: the value, the vocabulary of reasons, the length of a note, and
-- the two references.
abbrev pub vote_reasons : List Text
vote_reasons =
    codes "out_of_sync"
    ∷ codes "wrong_content"
    ∷ codes "wrong_language"
    ∷ codes "low_quality"
    ∷ codes "spam"
    ∷ []

unfoldable pub reason_allowed : Option Text → Bool
reason_allowed none = true
reason_allowed (some r) = any (text_eq r) vote_reasons

unfoldable pub note_allowed : Option Text → Bool
note_allowed none = true
note_allowed (some n) = leb (length n) 300

unfoldable pub vote_allowed : ℤ → Option Text → Option Text → Bool
vote_allowed value reason note =
    (eq_ℤ value (pos 1) || eq_ℤ value (negsuc 0)) && reason_allowed reason && note_allowed note

unfoldable pub vote_references : ℕ → ℕ → Db → Bool
vote_references track account db =
    any (λ t. t.id == track) db.tracks && any (λ a. a.id == account) db.accounts

abbrev pub new_vote : ℕ → ℕ → ℤ → Option Text → Option Text → ℕ → Vote
new_vote track account value reason remark now = record {
  track_id = track;
  account_id = account;
  value = value;
  reason = reason;
  note = remark;
  created_at = now;
  updated_at = now;
}

abbrev pub revote : ℤ → Option Text → Option Text → ℕ → Vote → Vote
revote value reason remark now v = record v {
  value = value;
  reason = reason;
  note = remark;
  updated_at = now;
}

-- INSERT … ON CONFLICT (track_id, account_id) DO UPDATE.
unfoldable pub put_vote : ℕ → ℕ → ℤ → Option Text → Option Text → ℕ → List Vote → List Vote
put_vote track account value reason remark now =
    upsert_where (is_vote track account) (revote value reason remark now)
      (new_vote track account value reason remark now)

-- UpsertVote, and the refreshed tallies.
unfoldable pub upsert_vote :
    ℕ → ℕ → ℤ → Option Text → Option Text → ℕ → Db → Result StoreError (Db × (ℕ × ℕ))
upsert_vote track account value reason note now db = do
  guard (vote_allowed value reason note) check_violation
  guard (vote_references track account db) foreign_key
  ok (
      recompute_vote_counts track
        (record db { votes = put_vote track account value reason note now db.votes }))

-- RetractVote.
unfoldable pub retract_vote : ℕ → ℕ → Db → Db × (ℕ × ℕ)
retract_vote track account db =
    recompute_vote_counts track
      (record db { votes = delete_where (is_vote track account) db.votes })
