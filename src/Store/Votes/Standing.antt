-- ===== src/Store/Votes/Standing.antt =====
-- internal/store/vote.go: which vote stands after a call, and that retracting undoes a vote.
use moan_subs.Prelude.{
  ℕ, ◌≡◌, ◌≢◌, refl, sym, ap, ◌∙◌, true, false, List, Option, some, arith, ◌==◌, find, inl, inr,
  ==_refl, ◌⊎◌, Option-cases,
}
use mathlib.Core.Option
use mathlib.Core.Path.{ap₂}
use native.Mathlib.Decide.{ℕ_discrete}
use moan_subs.Prelude.Int.{ℤ}
use moan_subs.Prelude.Result.{ok, guard_ok, ok_injective}
use moan_subs.Prelude.Text.{Text}
use moan_subs.Store.Table.{update_where, delete_where, update-update}
use moan_subs.Store.Table.Upsert.{
  upsert_where, find-upsert, find-upsert_other, delete-upsert, count-upsert_key, count-upsert_other,
}
use moan_subs.Store.Schema.{Db, Vote, Track, check_violation, foreign_key, StoreError}
use moan_subs.Store.Votes.{
  is_vote, new_vote, revote, count_votes, set_tallies, recompute_vote_counts, put_vote, upsert_vote,
  retract_vote, vote_allowed, vote_references,
}
use moan_subs.Store.Votes.Tallies.{IsKeyed}

-- What an account's vote says: its value, reason and note.
abbrev pub said : Vote → ℤ × Option Text × Option Text
said v = (v.value, v.reason, v.note)

abbrev pub standing_vote : ℕ → ℕ → List Vote → Option (ℤ × Option Text × Option Text)
standing_vote track account votes = Option.map said (find (is_vote track account) votes)

-- A second key's rows are not the first key's.
other_key :
    (t a t' a' : ℕ) (v : Vote)
    → (t' ≢ t) ⊎ (a' ≢ a)
    → is_vote t a v ≡ true
    → is_vote t' a' v ≡ false
other_key t a t' a' v ne h = ground arith

same_key : (t a t' a' : ℕ) → ((t' ≡ t) × (a' ≡ a)) ⊎ ((t' ≢ t) ⊎ (a' ≢ a))
same_key t a t' a' = elim (ℕ_discrete t' t) [
  | yes p ↦ elim (ℕ_discrete a' a) [ yes q ↦ inl (p, q) | no n ↦ inr (inr n) ]
  | no n ↦ inr (inl n)
]

-- After a vote is put, it stands for its account and track, whatever stood there before, and the vote
-- of every other account or track is the one that stood before.
pub standing-put_vote :
    (track account : ℕ) (value : ℤ) (reason remark : Option Text) (now : ℕ) (votes : List Vote)
    → let new = put_vote track account value reason remark now votes in
      (standing_vote track account new ≡ some (value, reason, remark))
      × ((t a : ℕ) → (t ≢ track) ⊎ (a ≢ account) → standing_vote t a new ≡ standing_vote t a votes)
unfolding put_vote
standing-put_vote track account value reason remark now votes =
    let new = new_vote track account value reason remark now in
    let change = revote value reason remark now in
    (
      rw
          (find-upsert (is_vote track account) change new votes (λ v h. h)
            (ground (arith, ==_refl track)))
          (elim (Option-cases (find (is_vote track account) votes)) [
            | inl e ↦ rw e
            | inr (v, e) ↦ rw e
          ]),
      λ t a ne. ap (Option.map said) (
          find-upsert_other (is_vote t a) (is_vote track account) change new votes
            (λ v h. let miss = other_key track account t a v ne h in (miss, miss)) (ground arith)),
    )

-- Putting a vote keeps one vote to an account and track.
pub put_vote-IsKeyed :
    (track account : ℕ) (value : ℤ) (reason remark : Option Text) (now : ℕ) (votes : List Vote)
    → IsKeyed votes
    → IsKeyed (put_vote track account value reason remark now votes)
unfolding put_vote
put_vote-IsKeyed track account value reason remark now votes keyed t a =
    let new = new_vote track account value reason remark now in
    let change = revote value reason remark now in
    elim (same_key track account t a) [
      | inl (p, q) ↦
          rw (p, q)
            (omega (
              arith,
              count-upsert_key (is_vote track account) change new votes (λ v h. h)
                  (ground (arith, ==_refl track)) (keyed track account),
            ))
      | inr ne ↦ omega (
        arith,
        keyed t a,
        count-upsert_other (is_vote t a) (is_vote track account) change new votes (λ v h. refl)
            (ground arith),
      )
    ]

abbrev with_votes : ℕ → Db → List Vote → List Track → Db × (ℕ × ℕ)
with_votes track db votes tracks =
    (record db { votes = votes; tracks = tracks }, count_votes track votes)

retract-put_vote :
    (track account : ℕ) (value : ℤ) (reason remark : Option Text) (now : ℕ) (db : Db)
    → let votes = put_vote track account value reason remark now db.votes in
      retract_vote track account (recompute_vote_counts track (record db { votes = votes })).0
      ≡ retract_vote track account db
unfolding retract_vote recompute_vote_counts put_vote count_votes
retract-put_vote track account value reason remark now db =
    let new = new_vote track account value reason remark now in
    let change = revote value reason remark now in
    let votes = upsert_where (is_vote track account) change new db.votes in
    let gone : delete_where (is_vote track account) votes
        ≡ delete_where (is_vote track account) db.votes =
      delete-upsert (is_vote track account) change new db.votes (λ v h. h)
        (ground (arith, ==_refl track, ==_refl account)) in
    ap₂ (with_votes track db) gone (
      update-update (λ t. t.id == track) (set_tallies (count_votes track votes))
        (set_tallies (count_votes track (delete_where (is_vote track account) votes)))
        (λ t h. (h, refl)) db.tracks
      ∙ ap
          (λ (v : List Vote).
            update_where (λ t. t.id == track) (set_tallies (count_votes track v)) db.tracks)
          gone)

-- Retracting after a vote leaves the database that retracting without it leaves: the tables and the
-- tallies that are returned.
pub retract-upsert_vote :
    (track account : ℕ) (value : ℤ) (reason remark : Option Text) (now : ℕ) (db db' : Db)
    (counts : ℕ × ℕ)
    → upsert_vote track account value reason remark now db ≡ ok (db', counts)
    → retract_vote track account db' ≡ retract_vote track account db
unfolding upsert_vote retract_vote recompute_vote_counts put_vote
retract-upsert_vote track account value reason remark now db db' counts h =
    let (_, h') = guard_ok (vote_allowed value reason remark) check_violation _ h in
    let (_, e) = guard_ok (vote_references track account db) foreign_key _ h' in
    ap (λ (p : Db × (ℕ × ℕ)). retract_vote track account p.0) (sym (ok_injective StoreError e))
    ∙ retract-put_vote track account value reason remark now db
