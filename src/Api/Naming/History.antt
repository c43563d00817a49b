-- ===== src/Api/Naming/History.antt =====
-- internal/api/: what any sequence of requests does to the names that a moderator has confirmed.
use moan_subs.Prelude.{
  ℕ, ◌≡◌, refl, subst, ◌∙◌, true, false, List, [], ◌∷◌, Option, none, some, arith, any, find,
  Bool-cases, Option-cases, inl, inr,
}
use moan_subs.Store.Table.Find.{any-found}
use moan_subs.Store.Schema.{Db, Release, Metadata, Confirmation}
use moan_subs.Store.Removals.{account_exists}
use moan_subs.Store.Releases.{is_release}
use moan_subs.Store.Releases.Lookup.{get_release_by_id}
use moan_subs.Store.Metadata.{of_release, confirm_metadata, unconfirm_metadata, purge_proposals}
use moan_subs.Store.Metadata.Derive.{Candidate, work_release_ids}
use moan_subs.Store.Metadata.Pins.{Shows, IsPinned, derive_work-Derived}
use moan_subs.Store.Metadata.Confirming.{
  unconfirm_metadata-IsPinned, confirm_metadata-IsPinned, purge_proposals-IsPinned,
}
use moan_subs.Store.Metadata.Keeping.{Keeps, keeps_all, keeps_both}
use moan_subs.Api.Naming.{
  logged, purge_work_or_own, handle_mod_release_confirm, handle_mod_release_unconfirm,
  purge_release_metadata, handle_mod_release_purge_work_metadata,
}
use moan_subs.Api.Naming.Keeping.{derived-Keeps}
use moan_subs.Api.Naming.Steps.{serve-Keeps}
use moan_subs.Api.Naming.Requests.{
  Request, upload, contribute, propose, confirm, unconfirm, purge, purge_work, link, unlink,
  withdraw, restore, remove_stash_id, rules_on_pins, serve, serve_all,
}

pub no_account :
    (release by : ℕ) (m : Metadata) (now : ℕ) (db : Db)
    → account_exists (some by) db.accounts ≡ false
    → logged (confirm_metadata release (some by) m now db) db ≡ db
unfolding confirm_metadata
no_account release by m now db unknown = elim (Bool-cases (any (is_release release) db.releases)) [
  | inl e ↦ rw (e, unknown) refl
  | inr e ↦ rw e refl
]

module _ (visit : List Candidate → List Candidate) where
  confirmed-IsPinned :
      (release by now : ℕ) (db : Db)
      → IsPinned db
      → IsPinned (handle_mod_release_confirm visit release by now db)
  unfolding handle_mod_release_confirm get_release_by_id
  confirmed-IsPinned release by now db h =
      elim (Option-cases (find (is_release release) db.releases)) [
        | inl e ↦ rw e h
        | inr (r, found) ↦ rw found (shown_pin r found)
      ]
    where
      shown_pin :
          (r : Release)
          → find (is_release release) db.releases ≡ some r
          → IsPinned (logged (confirm_metadata release (some by) r.metadata now db) db)
      shown_pin r found = elim (Bool-cases (account_exists (some by) db.accounts)) [
        | inl known ↦
            let (db', e, pinned) =
              confirm_metadata-IsPinned release (some by) now db r found known in
            rw e (pinned h)
        | inr unknown ↦ rw (no_account release by r.metadata now db unknown) h
      ]

  purged :
      (release : ℕ) (db : Db) → IsPinned db → IsPinned (purge_release_metadata visit release db)
  unfolding purge_release_metadata
  purged release db h =
      let (pinned, _, _, _) = derived-Keeps visit release (purge_proposals (release ∷ []) db) in
      pinned (purge_proposals-IsPinned (release ∷ []) db h)

  purged_work :
      (release : ℕ) (w : Option ℕ) (db : Db)
      → IsPinned db
      → IsPinned (purge_work_or_own visit release w db)
  purged_work release none db h = purged release db h
  purged_work release (some w) db h =
      let ids = work_release_ids w db in
      let (db', e, pinned, _, _, _) = derive_work-Derived visit w (purge_proposals ids db) in
      rw e (pinned (purge_proposals-IsPinned ids db h))

  shown_still :
      (q : Request) (db : Db) → rules_on_pins q ≡ false → IsPinned db → IsPinned (serve visit q db)
  shown_still q db h = (serve-Keeps visit q db h).0

  serve-IsPinned : (q : Request) (db : Db) → IsPinned db → IsPinned (serve visit q db)
  unfolding serve handle_mod_release_unconfirm handle_mod_release_purge_work_metadata
      get_release_by_id
  serve-IsPinned (upload enabled endpoints r account m ids now) db h =
      shown_still (upload enabled endpoints r account m ids now) db refl h
  serve-IsPinned (contribute enabled endpoints account e now) db h =
      shown_still (contribute enabled endpoints account e now) db refl h
  serve-IsPinned (propose enabled endpoints release m account now) db h =
      shown_still (propose enabled endpoints release m account now) db refl h
  serve-IsPinned (confirm release by now) db h = confirmed-IsPinned release by now db h
  serve-IsPinned (unconfirm release) db h =
      let (pinned, _, _, _) = derived-Keeps visit release (unconfirm_metadata release db) in
      pinned (unconfirm_metadata-IsPinned release db h)
  serve-IsPinned (purge release) db h = purged release db h
  serve-IsPinned (purge_work release) db h =
      elim (Option-cases (find (is_release release) db.releases)) [
        | inl e ↦ rw e (purged release db h)
        | inr (r, found) ↦ rw found (purged_work release r.work_id db h)
      ]
  serve-IsPinned (link a b) db h = shown_still (link a b) db refl h
  serve-IsPinned (unlink release) db h = shown_still (unlink release) db refl h
  serve-IsPinned (withdraw release reason now) db h =
      shown_still (withdraw release reason now) db refl h
  serve-IsPinned (restore release) db h = shown_still (restore release) db refl h
  serve-IsPinned (remove_stash_id release endpoint stash_id) db h =
      shown_still (remove_stash_id release endpoint stash_id) db refl h

  -- Whatever uploads, contributions, corrections, and rulings of moderators on pins, works, withdrawals and
  -- stash-box ids are served, in whatever order, each release that has a pin shows what is pinned, if it did
  -- before.
  pub serve_all-IsPinned :
      (qs : List Request) (db : Db) → IsPinned db → IsPinned (serve_all visit qs db)
  unfolding serve_all
  serve_all-IsPinned [] db h = h
  serve_all-IsPinned (q ∷ qs) db h =
      serve_all-IsPinned qs (serve visit q db) (serve-IsPinned q db h)

  others-Keep :
      (qs : List Request) (db : Db)
      → any rules_on_pins qs ≡ false
      → Keeps db (serve_all visit qs db)
  unfolding serve_all
  others-Keep [] db h = keeps_all db
  others-Keep (q ∷ qs) db h =
      let mine : rules_on_pins q ≡ false = ground arith in
      keeps_both db (serve visit q db) (serve_all visit qs (serve visit q db))
        (serve-Keeps visit q db mine) (others-Keep qs (serve visit q db) (ground arith))

  -- No sequence of uploads, contributions and corrections by accounts, and of linking, unlinking, withdrawing,
  -- restoring and removing stash-box ids by moderators, moves a name that is confirmed, or takes the
  -- confirmation away: the release still has the same pin and shows it. Every pin must be shown before.
  pub serve_all-confirmed :
      (qs : List Request) (db : Db) (i : ℕ) (c : Confirmation)
      → any rules_on_pins qs ≡ false
      → IsPinned db
      → find (of_release i) db.confirmations ≡ some c
      → any (is_release i) db.releases ≡ true
      → (find (of_release i) (serve_all visit qs db).confirmations ≡ some c)
        × ((r : Release) × (find (is_release i) (serve_all visit qs db).releases ≡ some r)
            × (r.metadata ≡ c.metadata))
  serve_all-confirmed qs db i c others pinned pin there =
      let served = serve_all visit qs db in
      let (keeps, ids, held, _) = others-Keep qs db others in
      let (r, found) = any-found (is_release i) served.releases (ids i ∙ there) in
      let kept = held i c pin in
      let shown : Shows (some c) (some r) =
        subst (λ (o : Option Release). Shows (some c) o) found
          (subst (λ (o : Option Confirmation). Shows o (find (is_release i) served.releases)) kept
            (keeps pinned i)) in
      (kept, (r, found, shown))
