-- ===== src/Store/Metadata/Framing.antt =====
-- internal/store/release.go and stash_id.go: operations that touch no pin and no name.
use moan_subs.Prelude.{
  ℕ, ◌≡◌, refl, sym, subst, List, [], ◌∷◌, ◌++◌, Option, any, find, Bool-cases, Option-cases, inl,
  inr,
}
use moan_subs.Prelude.Result.{Result, ok, err, guard, ◌>>=◌, ◌>>◌}
use moan_subs.Prelude.Text.{Text}
use moan_subs.Store.Table.{update_where}
use moan_subs.Store.Schema.{Db, Track, StoreError, unique_violation, not_found}
use moan_subs.Store.Tracks.{withdraw_row, index_holds}
use moan_subs.Store.Releases.{
  is_release, withdraw_release, restore_release, withdraw_release_row, restore_release_row,
  live_in_release, restore_stamped,
}
use moan_subs.Store.StashIds.{
  NewStashId, stash_id_row, has_stash_key, stash_references, attach_stash_id, add_release_stash_ids,
  remove_release_stash_id,
}
use moan_subs.Store.Metadata.Keeping.{Keeps, keeps_all, keeps_both, keeps_rows, keeps_update}

-- The database of a step that succeeds.
abbrev pub KeptBy : Db → Result StoreError Db → Type 0
KeptBy db (ok db') = Keeps db db'
KeptBy db (err e) = Unit {0}

kept_next :
    (db stored : Db) (result : Result StoreError Db)
    → Keeps db stored
    → KeptBy stored result
    → KeptBy db result
kept_next db stored (err e) h k = tt
kept_next db stored (ok db') h k = keeps_both db stored db' h k

kept_bind :
    (db : Db) (first : Result StoreError Db) (f : Db → Result StoreError Db)
    → KeptBy db first
    → ((stored : Db) → KeptBy stored (f stored))
    → KeptBy db (first >>= f)
kept_bind db (err e) f h k = tt
kept_bind db (ok stored) f h k = kept_next db stored (f stored) h (k stored)

attach-KeptBy :
    (release : ℕ) (by : Option ℕ) (n : NewStashId) (db : Db)
    → KeptBy db (attach_stash_id release by n db)
attach-KeptBy release by n db =
    elim (Bool-cases (any (has_stash_key release n.endpoint n.stash_id) db.stash_ids)) [
      | inl held ↦ rw held (keeps_all db)
      | inr new ↦ elim (Bool-cases (stash_references release by db)) [
        | inl known ↦
            let attached = record db {
              stash_ids = db.stash_ids ++ stash_id_row release n by ∷ [];
            } in
            rw (new, known) (keeps_rows db attached refl refl)
        | inr unknown ↦ rw (new, unknown) tt
      ]
    ]

pub attached-KeptBy :
    (release : ℕ) (ids : List NewStashId) (by : Option ℕ) (db : Db)
    → KeptBy db (add_release_stash_ids release ids by db)
unfolding add_release_stash_ids
attached-KeptBy release [] by db = keeps_all db
attached-KeptBy release (n ∷ ids) by db =
    kept_bind db (attach_stash_id release by n db)
      (λ stored. add_release_stash_ids release ids by stored) (attach-KeptBy release by n db)
      (λ stored. attached-KeptBy release ids by stored)

pub withdraw_release-KeptBy :
    (release : ℕ) (reason : Text) (now : ℕ) (db : Db)
    → KeptBy db (withdraw_release release reason now db)
unfolding withdraw_release
withdraw_release-KeptBy release reason now db =
    let marked = record db {
      releases = update_where (is_release release) (withdraw_release_row now reason) db.releases;
    } in
    let withdrawn = record marked {
      tracks = update_where (live_in_release release) (withdraw_row now reason) db.tracks;
    } in
    elim (Bool-cases (any (is_release release) db.releases)) [
      | inl e ↦ rw e (
          keeps_both db marked withdrawn
            (keeps_update (is_release release) (withdraw_release_row now reason) (λ r. refl)
              (λ r. refl) (λ r. refl) db)
            (keeps_rows marked withdrawn refl refl))
      | inr e ↦ rw e tt
    ]

pub restore_release-KeptBy : (release : ℕ) (db : Db) → KeptBy db (restore_release release db)
unfolding restore_release
restore_release-KeptBy release db = elim (Option-cases (find (is_release release) db.releases)) [
  | inl e ↦
      let missing : restore_release release db ≡ err not_found = rw (e, restore_release) refl in
      subst (λ (result : Result StoreError Db). KeptBy db result) (sym missing) tt
  | inr (r, found) ↦
      let tracks = restore_stamped release r.withdrawn_at db.tracks in
      let back : restore_release release db ≡ restored_with tracks =
        rw (found, restore_release) refl in
      subst (λ (result : Result StoreError Db). KeptBy db result) (sym back) (restored tracks)
]
  where
    restored_with : List Track → Result StoreError Db
    restored_with tracks =
        guard (index_holds tracks) unique_violation
        >> ok (record db {
          releases = update_where (is_release release) restore_release_row db.releases;
          tracks = tracks;
        })

    restored : (tracks : List Track) → KeptBy db (restored_with tracks)
    restored tracks =
        let marked = record db {
          releases = update_where (is_release release) restore_release_row db.releases;
        } in
        let back = record marked { tracks = tracks } in
        elim (Bool-cases (index_holds tracks)) [
          | inl e ↦ rw e (
              keeps_both db marked back
                (keeps_update (is_release release) restore_release_row (λ r. refl) (λ r. refl)
                  (λ r. refl) db)
                (keeps_rows marked back refl refl))
          | inr e ↦ rw e tt
        ]

pub removed-Keeps :
    (release : ℕ) (endpoint stash_id : Text) (db : Db)
    → Keeps db (remove_release_stash_id release endpoint stash_id db)
unfolding remove_release_stash_id
removed-Keeps release endpoint stash_id db =
    keeps_rows db (remove_release_stash_id release endpoint stash_id db) refl refl
