-- ===== src/Store/Accounts/Recount.antt =====
-- internal/store/account.go: the tallies of the tracks that a deleted account had voted on.
use moan_subs.Prelude.{
  ℕ, ◌≡◌, refl, sym, ◌∙◌, Bool, true, false, ◌&&◌, ◌||◌, List, [], ◌∷◌, arith, ◌==◌, count, any,
  map, keep, All, Bool-cases, inl, inr, ◌⊎◌, ==_iff,
}
use moan_subs.Store.Table.{delete_where, is_id, All-and, All-map, All-update_where}
use moan_subs.Store.Table.Keep.{Covered, keep_covers, any-map, All-map_rows}
use moan_subs.Store.Schema.{Db, Track, Vote}
use moan_subs.Store.Votes.{is_up, is_down, recompute_vote_counts}
use moan_subs.Store.Votes.Tallies.{Tallied, IsTallied}
use moan_subs.Store.Accounts.Deletion.{
  unlink_track, unlink_tracks, delete_votes, insert_id, sort_ids, has_voted, voted_tracks,
  recompute_each, delete_account_row, forget_uploader, erase_account,
}

any-insert_id : (q : ℕ → Bool) (i : ℕ) (ids : List ℕ) → any q (insert_id i ids) ≡ (q i || any q ids)
any-insert_id q i [] = ground arith
any-insert_id q i (j ∷ ids) = ground (arith, any-insert_id q i ids)

any-sort_ids : (q : ℕ → Bool) (ids : List ℕ) → any q (sort_ids ids) ≡ any q ids
any-sort_ids q [] = refl
any-sort_ids q (i ∷ ids) = ground (arith, any-insert_id q i (sort_ids ids), any-sort_ids q ids)

abbrev is_track : Track → ℕ → Bool
is_track t i = i == t.id

abbrev track_key : Track → ℕ
track_key t = t.id

-- Every track that the account has voted on is among those that are counted again.
voted_tracks-All :
    (account : ℕ) (db : Db)
    → All
        (λ t.
          has_voted account db.votes t ≡ true → any (is_track t) (voted_tracks account db) ≡ true)
        db.tracks
unfolding voted_tracks
voted_tracks-All account db =
    let p = has_voted account db.votes in
    let kept = keep p db.tracks in
    All-map {P = Covered track_key p kept}
      (λ t c e.
        any-sort_ids (is_track t) (map track_key kept) ∙ any-map (is_track t) track_key kept ∙ c e)
      db.tracks (keep_covers track_key p db.tracks)

-- The deletion of an account's votes leaves the counts of a track that it has not voted on.
unvoted-counts :
    (account track : ℕ) (votes : List Vote)
    → any (λ v. v.track_id == track && v.account_id == account) votes ≡ false
    → let rest = delete_where (λ v. v.account_id == account) votes in
      (count (is_up track) rest ≡ count (is_up track) votes)
      × (count (is_down track) rest ≡ count (is_down track) votes)
unvoted-counts account track [] h = (refl, refl)
unvoted-counts account track (v ∷ votes) h = ground (arith, unvoted-counts account track votes)

abbrev Pending : List ℕ → List Vote → Track → Type 0
Pending ids votes t = (any (is_track t) ids ≡ true) ⊎ Tallied votes t

Pending-cons :
    (id : ℕ) (ids : List ℕ) (votes : List Vote) (t : Track)
    → Pending (id ∷ ids) votes t
    → (t.id == id) ≡ false
    → Pending ids votes t
Pending-cons id ids votes t (inl e) miss = inl (ground (arith, ==_iff t.id id))
Pending-cons id ids votes t (inr e) miss = inr e

recompute_each-IsTallied :
    (ids : List ℕ) (db : Db)
    → All (Pending ids db.votes) db.tracks
    → IsTallied (recompute_each ids db)
unfolding recompute_each recompute_vote_counts moan_subs.Store.Votes.count_votes
recompute_each-IsTallied [] db h =
    All-map {P = Pending [] db.votes} {Q = Tallied db.votes}
      (λ t p. elim p [ inl e ↦ absurd (cc) | inr e ↦ e ]) db.tracks h
recompute_each-IsTallied (id ∷ ids) db h =
    recompute_each-IsTallied ids (recompute_vote_counts id db).0 (
      All-update_where {P = Pending (id ∷ ids) db.votes} {Q = Pending ids db.votes}
        (λ t. t.id == id) _ (λ t p hit. let e = (==_iff t.id id).0 hit in inr (rw e (refl, refl)))
        (λ t p miss. Pending-cons id ids db.votes t p miss) db.tracks h)

pub recompute_each-votes : (ids : List ℕ) (db : Db) → (recompute_each ids db).votes ≡ db.votes
unfolding recompute_each recompute_vote_counts
recompute_each-votes [] db = refl
recompute_each-votes (id ∷ ids) db = recompute_each-votes ids (recompute_vote_counts id db).0

pub recompute_each-accounts :
    (ids : List ℕ) (db : Db) → (recompute_each ids db).accounts ≡ db.accounts
unfolding recompute_each recompute_vote_counts
recompute_each-accounts [] db = refl
recompute_each-accounts (id ∷ ids) db = recompute_each-accounts ids (recompute_vote_counts id db).0

unlinked-Tallied :
    (account : ℕ) (ids : List ℕ) (votes : List Vote) (t : Track)
    → Tallied votes t
    → (has_voted account votes t ≡ true → any (is_track t) ids ≡ true)
    → Pending ids (delete_where (λ v. v.account_id == account) votes) t
unlinked-Tallied account ids votes t (ups, downs) named =
    elim (Bool-cases (has_voted account votes t)) [
      | inl e ↦ inl (named e)
      | inr e ↦ let (u, d) = unvoted-counts account t.id votes e in inr (ups ∙ sym u, downs ∙ sym d)
    ]

-- Between the deletion of the votes and the recount, the tallies of a track are right or it is named
-- for the recount.
unlinked-Pending :
    (account : ℕ) (db : Db)
    → IsTallied db
    → let db' = delete_votes account (unlink_tracks account db) in
      All (Pending (voted_tracks account db) db'.votes) db'.tracks
unlinked-Pending account db tallied =
    let ids = voted_tracks account db in
    let Named : Track → Type 0 =
      λ t. has_voted account db.votes t ≡ true → any (is_track t) ids ≡ true in
    let rest = delete_where (λ v. v.account_id == account) db.votes in
    All-update_where {P = λ t. Tallied db.votes t × Named t} {Q = Pending ids rest}
      (λ t. is_id account t.uploader_id) unlink_track
      (λ t (h, n) hit. unlinked-Tallied account ids db.votes (unlink_track t) h n)
      (λ t (h, n) miss. unlinked-Tallied account ids db.votes t h n) db.tracks
      (All-and (Tallied db.votes) Named db.tracks tallied (voted_tracks-All account db))

pub erase_account-IsTallied :
    (account : ℕ) (db : Db) → IsTallied db → IsTallied (erase_account account db)
unfolding erase_account delete_account_row
erase_account-IsTallied account db tallied =
    let ids = voted_tracks account db in
    let left = recompute_each ids (delete_votes account (unlink_tracks account db)) in
    All-map_rows (Tallied left.votes) (forget_uploader account) left.tracks (
      recompute_each-IsTallied ids (delete_votes account (unlink_tracks account db))
        (unlinked-Pending account db tallied))
