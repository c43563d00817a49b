-- ===== src/Store/Votes/Tallies.antt =====
-- internal/store/vote.go: the tallies on a track's row never drift from the votes.
use moan_subs.Prelude.{
  ℕ, ◌+◌, ◌≤◌, ◌≡◌, ◌≢◌, refl, sym, ap, ◌∙◌, true, false, List, Option, arith, ◌==◌, if◌then◌else◌,
  count, All, ==_iff, ==_refl,
}
use moan_subs.Prelude.Int.{ℤ, pos, negsuc, eq_ℤ}
use moan_subs.Prelude.Result.{ok}
use moan_subs.Prelude.Text.{Text}
use moan_subs.Store.Table.{
  delete_where, All-update_where, count-delete_where, count-delete_where_self,
}
use moan_subs.Store.Table.Upsert.{count-upsert_other, count-upsert_self}
use moan_subs.Store.Schema.{Db, Vote, Track}
use moan_subs.Store.Votes.{
  is_vote, is_up, is_down, recompute_vote_counts, put_vote, upsert_vote, retract_vote, vote_allowed,
  vote_references,
}

-- Every track's row shows how many votes of each kind there are on it.
abbrev pub Tallied : List Vote → Track → Type 0
Tallied votes t = (t.up ≡ count (is_up t.id) votes) × (t.down ≡ count (is_down t.id) votes)

abbrev pub IsTallied : Db → Type 0
IsTallied db = All (Tallied db.votes) db.tracks

-- No account has two votes on a track.
abbrev pub IsKeyed : List Vote → Type 0
IsKeyed votes = (track account : ℕ) → count (is_vote track account) votes ≤ 1

-- Votes on other tracks are as before, and so are the tallies of these.
SameElsewhere : ℕ → List Vote → List Vote → Type 0
SameElsewhere track old new =
    (other : ℕ)
    → other ≢ track
    → (count (is_up other) new ≡ count (is_up other) old)
      × (count (is_down other) new ≡ count (is_down other) old)

-- Recounting after a change to one track's votes restores the tallies.
recompute-IsTallied :
    (track : ℕ) (old : List Vote) (db : Db)
    → All (Tallied old) db.tracks
    → SameElsewhere track old db.votes
    → IsTallied (recompute_vote_counts track db).0
unfolding recompute_vote_counts SameElsewhere
recompute-IsTallied track old db tallied same =
    All-update_where (λ t. t.id == track) _
      (λ t _ hit. let e = (==_iff t.id track).0 hit in rw e (refl, refl))
      (λ t h miss.
        let (u, d) = same t.id (λ e. ground (arith, ap (λ (n : ℕ). n == track) e, ==_refl track)) in
        (h.0 ∙ sym u, h.1 ∙ sym d))
      db.tracks tallied

is_vote-track : (track account : ℕ) (v : Vote) → is_vote track account v ≡ true → v.track_id ≡ track
is_vote-track track account v h = ground arith

-- A vote on a track is counted for no other.
is_up-other :
    (track other account : ℕ) (v : Vote)
    → other ≢ track
    → is_vote track account v ≡ true
    → (is_up other v ≡ false) × (is_down other v ≡ false)
is_up-other track other account v ne h = ground arith

put_vote-SameElsewhere :
    (track account : ℕ) (value : ℤ) (reason remark : Option Text) (now : ℕ) (votes : List Vote)
    → SameElsewhere track votes (put_vote track account value reason remark now votes)
unfolding SameElsewhere put_vote
put_vote-SameElsewhere track account value reason remark now votes other ne = (
  count-upsert_other (is_up other) (is_vote track account) _ _ votes
      (λ v h. ground (arith, is_up-other track other account v ne h)) (ground arith),
  count-upsert_other (is_down other) (is_vote track account) _ _ votes
      (λ v h. ground (arith, is_up-other track other account v ne h)) (ground arith),
)

delete-SameElsewhere :
    (track account : ℕ) (votes : List Vote)
    → SameElsewhere track votes (delete_where (is_vote track account) votes)
unfolding SameElsewhere
delete-SameElsewhere track account votes other ne = (
  count-delete_where (is_up other) (is_vote track account)
      (λ v h. (is_up-other track other account v ne h).0) votes,
  count-delete_where (is_down other) (is_vote track account)
      (λ v h. (is_up-other track other account v ne h).1) votes,
)

-- The votes that count for a track are those of the other accounts and the one that was put.
put_vote-counts :
    (track account : ℕ) (value : ℤ) (reason remark : Option Text) (now : ℕ) (votes : List Vote)
    → count (is_vote track account) votes ≤ 1
    → let rest = delete_where (is_vote track account) votes in
      let new = put_vote track account value reason remark now votes in
      (count (is_up track) new ≡ count (is_up track) rest + (if eq_ℤ value (pos 1) then 1 else 0))
      × (count (is_down track) new
          ≡ count (is_down track) rest + (if eq_ℤ value (negsuc 0) then 1 else 0))
unfolding put_vote
put_vote-counts track account value reason remark now votes key = (
  count-upsert_self (is_up track) (is_vote track account) _ _ _ votes (λ v h. ground arith)
      (ground (arith, ==_refl track)) key,
  count-upsert_self (is_down track) (is_vote track account) _ _ _ votes (λ v h. ground arith)
      (ground (arith, ==_refl track)) key,
)

-- A vote that meets the constraints is accepted. It leaves all tallies right, if they were, and
-- returns those of its track: the votes of the other accounts, and this one on its side. The
-- account must have had no more than one vote there.
pub upsert_vote-IsTallied :
    (track account : ℕ) (value : ℤ) (reason remark : Option Text) (now : ℕ) (db : Db)
    → IsTallied db
    → count (is_vote track account) db.votes ≤ 1
    → vote_allowed value reason remark ≡ true
    → vote_references track account db ≡ true
    → let rest = delete_where (is_vote track account) db.votes in
      (db' : Db) × (up : ℕ) × (down : ℕ) × (upsert_vote track account value reason remark now db
        ≡ ok (db', (up, down)))
      × IsTallied db'
      × (up ≡ count (is_up track) rest + (if eq_ℤ value (pos 1) then 1 else 0))
      × (down ≡ count (is_down track) rest + (if eq_ℤ value (negsuc 0) then 1 else 0))
unfolding upsert_vote recompute_vote_counts
upsert_vote-IsTallied track account value reason remark now db tallied key allowed present =
    let votes = put_vote track account value reason remark now db.votes in
    let stored = record db { votes = votes } in
    let (ups, downs) = put_vote-counts track account value reason remark now db.votes key in
    (
      (recompute_vote_counts track stored).0,
      count (is_up track) votes,
      count (is_down track) votes,
      rw (allowed, present),
      recompute-IsTallied track db.votes stored tallied
          (put_vote-SameElsewhere track account value reason remark now db.votes),
      ups,
      downs,
    )

-- Retracting a vote, cast or not, leaves all tallies right, if they were, and returns those of its
-- track: the votes of the other accounts. The account then has no vote there.
pub retract_vote-IsTallied :
    (track account : ℕ) (db : Db)
    → IsTallied db
    → let rest = delete_where (is_vote track account) db.votes in
      let (db', counts) = retract_vote track account db in
      IsTallied db'
      × (counts.0 ≡ count (is_up track) rest)
      × (counts.1 ≡ count (is_down track) rest)
      × (count (is_vote track account) db'.votes ≡ 0)
unfolding retract_vote recompute_vote_counts
retract_vote-IsTallied track account db tallied =
    let votes = delete_where (is_vote track account) db.votes in
    (
      recompute-IsTallied track db.votes (record db { votes = votes }) tallied
          (delete-SameElsewhere track account db.votes),
      refl,
      refl,
      count-delete_where_self (is_vote track account) db.votes,
    )
