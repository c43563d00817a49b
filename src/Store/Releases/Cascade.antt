-- ===== src/Store/Releases/Cascade.antt =====
-- internal/store/release.go: what RestoreRelease brings back.
use moan_subs.Prelude.{
  ℕ, ◌≡◌, ◌≢◌, refl, ap, ◌∙◌, true, false, List, [], ◌∷◌, none, some, arith, if◌then◌else◌, any,
  All, Bool-cases, inl, inr, ==_refl,
}
use mathlib.Core.Path.{ap₂}
use moan_subs.Prelude.Result.{ok, ◌>>=◌}
use moan_subs.Prelude.Text.{Text}
use moan_subs.Store.Table.{update_where, All-update_where, All-map}
use moan_subs.Store.Table.Upsert.{find-update, any-update, update_none}
use moan_subs.Store.Schema.{Db, Track, Release}
use moan_subs.Store.Tracks.{is_live, withdraw_row, restore_row, index_holds}
use moan_subs.Store.Releases.{
  is_release, live_in_release, stamped, withdraw_release_row, restore_release_row, withdraw_release,
  restore_release,
}

All-Unit : (rs : List Release) → All (λ _. Unit {0}) rs
All-Unit [] = tt
All-Unit (r ∷ rs) = (tt, All-Unit rs)

-- A release that is not withdrawn, with no reason recorded.
abbrev pub Standing : ℕ → Release → Type 0
Standing id r = is_release id r ≡ true → (r.withdrawn_at ≡ none) × (r.withdrawn_reason ≡ none)

-- A track whose reason is NULL while it is live, and that was not withdrawn at `now`.
abbrev pub NotStamped : ℕ → Track → Type 0
NotStamped now t = (is_live t ≡ true → t.withdrawn_reason ≡ none) × (t.withdrawn_at ≢ some now)

restore-withdraw_row :
    (id now : ℕ) (reason : Text) (t : Track)
    → NotStamped now t
    → let t' = if live_in_release id t then withdraw_row now reason t else t in
      (if stamped id now t' then restore_row t' else t') ≡ t
restore-withdraw_row id now reason t h = elim (Bool-cases (live_in_release id t)) [
  | inl e ↦ rw e (ground (arith, ==_refl now))
  | inr e ↦ rw e (ground arith)
]

restore-withdraw_release_row :
    (id now : ℕ) (reason : Text) (r : Release)
    → Standing id r
    → let r' = if is_release id r then withdraw_release_row now reason r else r in
      (if is_release id r' then restore_release_row r' else r') ≡ r
restore-withdraw_release_row id now reason r h = elim (Bool-cases (is_release id r)) [
  | inl e ↦ let (a, b) = h e in rw e (ground arith)
  | inr e ↦ rw e (rw e)
]

restore-withdraw_rows :
    (id now : ℕ) (reason : Text) (tracks : List Track)
    → All (NotStamped now) tracks
    → update_where
        (stamped id now)
        restore_row
        (update_where (live_in_release id) (withdraw_row now reason) tracks)
      ≡ tracks
restore-withdraw_rows id now reason [] h = refl
restore-withdraw_rows id now reason (t ∷ ts) (h, hs) =
    ap₂ ◌∷◌ (restore-withdraw_row id now reason t h) (restore-withdraw_rows id now reason ts hs)

restore-withdraw_releases :
    (id now : ℕ) (reason : Text) (releases : List Release)
    → All (Standing id) releases
    → update_where
        (is_release id)
        restore_release_row
        (update_where (is_release id) (withdraw_release_row now reason) releases)
      ≡ releases
restore-withdraw_releases id now reason [] h = refl
restore-withdraw_releases id now reason (r ∷ rs) (h, hs) =
    ap₂ ◌∷◌ (restore-withdraw_release_row id now reason r h)
      (restore-withdraw_releases id now reason rs hs)

-- Taking a release down and bringing it back gives the database from before, where the release
-- exists and was not withdrawn, no track already had the time of the withdrawal, no live row had a
-- reason, and the index on superseded tracks holds.
pub restore-withdraw_release :
    (id now : ℕ) (reason : Text) (db : Db)
    → any (is_release id) db.releases ≡ true
    → All (Standing id) db.releases
    → All (NotStamped now) db.tracks
    → index_holds db.tracks ≡ true
    → (withdraw_release id reason now db >>= λ down. restore_release id down) ≡ ok db
unfolding withdraw_release restore_release
restore-withdraw_release id now reason db present standing unstamped unique =
    let (r, _, found) =
      find-update (is_release id) (withdraw_release_row now reason) (λ r h. h) db.releases
        present in
    rw (present, found, restore_release)
      (rw (restore-withdraw_rows id now reason db.tracks unstamped, unique)
        (ap (λ (rs : List Release). ok (record db { releases = rs }))
          (restore-withdraw_releases id now reason db.releases standing)))

-- After a first withdrawal no track of the release is live, and none has the time of a later one.
down_before :
    (id first second : ℕ) (reason : Text) (tracks : List Track)
    → first ≢ second
    → All (λ t. t.withdrawn_at ≢ some second) tracks
    → All
        (λ t. (live_in_release id t ≡ false) × (stamped id second t ≡ false))
        (update_where (live_in_release id) (withdraw_row first reason) tracks)
down_before id first second reason tracks ne fresh =
    All-update_where (live_in_release id) (withdraw_row first reason) (λ t h e. ground arith)
      (λ t h e. (e, ground arith)) tracks fresh

-- Withdrawing a release that exists again, at another time, loses track of what the first
-- withdrawal took down: RestoreRelease then succeeds, and brings back the release and none of its
-- tracks. (No track may have had the second time before, and the index must hold after the first
-- withdrawal.)
pub restore_after_two :
    (id first second : ℕ) (reason reason' : Text) (db : Db)
    → first ≢ second
    → any (is_release id) db.releases ≡ true
    → All (λ t. t.withdrawn_at ≢ some second) db.tracks
    → index_holds (update_where (live_in_release id) (withdraw_row first reason) db.tracks) ≡ true
    → (db' : Db) × ((withdraw_release id reason first db
          >>= (λ down. withdraw_release id reason' second down >>= restore_release id))
        ≡ ok db')
      × All (λ t. live_in_release id t ≡ false) db'.tracks
      × All (λ r. is_release id r ≡ true → r.withdrawn_at ≡ none) db'.releases
unfolding withdraw_release restore_release
restore_after_two id first second reason reason' db ne present fresh unique =
    let down = update_where (live_in_release id) (withdraw_row first reason) db.tracks in
    let once = update_where (is_release id) (withdraw_release_row first reason) db.releases in
    let twice = update_where (is_release id) (withdraw_release_row second reason') once in
    let below = down_before id first second reason db.tracks ne fresh in
    let dead : All (λ t. live_in_release id t ≡ false) down = All-map (λ t h. h.0) down below in
    let unseen : All (λ t. stamped id second t ≡ false) down = All-map (λ t h. h.1) down below in
    let still : any (is_release id) once ≡ true =
      any-update (is_release id) (withdraw_release_row first reason) (λ r h. h) db.releases
      ∙ present in
    let (r, _, found) =
      find-update (is_release id) (withdraw_release_row second reason') (λ r h. h) once still in
    (
      record db {
        releases = update_where (is_release id) restore_release_row twice;
        tracks = down;
      },
      rw present (
          rw still (
            rw (found, restore_release)
              (rw (
                update_none (live_in_release id) (withdraw_row second reason') down dead,
                update_none (stamped id second) restore_row down unseen,
                unique,
              )))),
      dead,
      All-update_where {P = λ (_ : Release). Unit {0}} (is_release id) restore_release_row
          (λ r _ e _. refl) (λ r _ miss e. absurd (cc)) twice (All-Unit twice),
    )
