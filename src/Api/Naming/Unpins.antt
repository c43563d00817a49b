-- ===== src/Api/Naming/Unpins.antt =====
-- internal/api/: what any sequence of requests does to a release that a moderator has unpinned.
use moan_subs.Prelude.{
  ℕ, ◌≡◌, refl, ap, subst, ◌∙◌, true, false, List, [], ◌∷◌, Option, none, some, arith, ◌==◌, any,
  find, Bool-cases, Option-cases, inl, inr, ==_refl,
}
use moan_subs.Store.Table.Find.{any-found, any-find}
use moan_subs.Store.Table.Upsert.{find-update, find-upsert}
use moan_subs.Store.Schema.{Db, Release}
use moan_subs.Store.Removals.{account_exists}
use moan_subs.Store.Releases.{is_release}
use moan_subs.Store.Releases.Lookup.{get_release_by_id}
use moan_subs.Store.Metadata.{
  of_release, confirmation_row, repin, unconfirm_metadata, purge_proposals,
}
use moan_subs.Store.Metadata.Blocks.{RowBlocked}
use moan_subs.Store.Metadata.Derive.{
  Candidate, work_release_ids, derive_work, derive_after_proposal,
}
use moan_subs.Store.Metadata.Pins.{derive_work-Derived}
use moan_subs.Store.Metadata.Keeping.{derived_once}
use moan_subs.Api.Naming.{
  logged, purge_work_or_own, handle_mod_release_confirm, handle_mod_release_unconfirm,
  purge_release_metadata, handle_mod_release_purge_work_metadata,
}
use moan_subs.Api.Naming.Keeping.{derived-Keeps}
use moan_subs.Api.Naming.History.{no_account}
use moan_subs.Api.Naming.Steps.{serve-Keeps}
use moan_subs.Api.Naming.Requests.{
  Request, upload, contribute, propose, confirm, unconfirm, purge, purge_work, link, unlink,
  withdraw, restore, remove_stash_id, rules_on_pins, confirms, serve, serve_all,
}
use moan_subs.Store.Metadata.Unpinning.{
  Stays, Stays-both, Keeps-Stays, confirmed_now, purged-Stays, unconfirmed-Stays, pinned-Stays,
  unconfirmed-IsUnpinned,
}

module _ (visit : List Candidate → List Candidate) where
  derived-Stays :
      (i release : ℕ) (db db' : Db)
      → Stays i db db'
      → Stays i db (logged (derive_after_proposal visit release db') db')
  derived-Stays i release db db' h =
      let derived = logged (derive_after_proposal visit release db') db' in
      Stays-both i db db' derived h (Keeps-Stays i db' derived (derived-Keeps visit release db'))

  confirmed-Stays :
      (i release by now : ℕ) (db : Db)
      → (release == i) ≡ false
      → Stays i db (handle_mod_release_confirm visit release by now db)
  unfolding handle_mod_release_confirm get_release_by_id
  confirmed-Stays i release by now db ne =
      elim (Option-cases (find (is_release release) db.releases)) [
        | inl e ↦ rw e (refl, λ h. h)
        | inr (r, found) ↦ elim (Bool-cases (account_exists (some by) db.accounts)) [
          | inl known ↦
              rw
                (
                  found,
                  confirmed_now release by r.metadata now db
                      (any-find (is_release release) db.releases r found) known,
                )
                (pinned-Stays i release by r.metadata now db ne)
          | inr unknown ↦ rw (found, no_account release by r.metadata now db unknown) (refl, λ h. h)
        ]
      ]

  purge_release-Stays :
      (i release : ℕ) (db : Db) → Stays i db (purge_release_metadata visit release db)
  unfolding purge_release_metadata
  purge_release-Stays i release db =
      derived-Stays i release db (purge_proposals (release ∷ []) db)
        (purged-Stays i (release ∷ []) db)

  purge_work-Stays :
      (i release : ℕ) (w : Option ℕ) (db : Db) → Stays i db (purge_work_or_own visit release w db)
  purge_work-Stays i release none db = purge_release-Stays i release db
  purge_work-Stays i release (some w) db =
      let purged = purge_proposals (work_release_ids w db) db in
      let (db', e, keeps) =
        derived_once visit (derive_work visit w purged) purged
          (derive_work-Derived visit w purged) in
      rw e (
        Stays-both i db purged db' (purged-Stays i (work_release_ids w db) db)
          (Keeps-Stays i purged db' keeps))

  kept-Stays :
      (i : ℕ) (q : Request) (db : Db) → rules_on_pins q ≡ false → Stays i db (serve visit q db)
  kept-Stays i q db h = Keeps-Stays i db (serve visit q db) (serve-Keeps visit q db h)

  serve-Stays :
      (i : ℕ) (q : Request) (db : Db) → confirms i q ≡ false → Stays i db (serve visit q db)
  unfolding serve handle_mod_release_unconfirm handle_mod_release_purge_work_metadata
      get_release_by_id
  serve-Stays i (upload enabled endpoints r account m ids now) db h =
      kept-Stays i (upload enabled endpoints r account m ids now) db refl
  serve-Stays i (contribute enabled endpoints account e now) db h =
      kept-Stays i (contribute enabled endpoints account e now) db refl
  serve-Stays i (propose enabled endpoints release m account now) db h =
      kept-Stays i (propose enabled endpoints release m account now) db refl
  serve-Stays i (confirm release by now) db h = confirmed-Stays i release by now db h
  serve-Stays i (unconfirm release) db h =
      derived-Stays i release db (unconfirm_metadata release db) (unconfirmed-Stays i release db)
  serve-Stays i (purge release) db h = purge_release-Stays i release db
  serve-Stays i (purge_work release) db h =
      elim (Option-cases (find (is_release release) db.releases)) [
        | inl e ↦ rw e (purge_release-Stays i release db)
        | inr (r, found) ↦ rw found (purge_work-Stays i release r.work_id db)
      ]
  serve-Stays i (link a b) db h = kept-Stays i (link a b) db refl
  serve-Stays i (unlink release) db h = kept-Stays i (unlink release) db refl
  serve-Stays i (withdraw release reason now) db h =
      kept-Stays i (withdraw release reason now) db refl
  serve-Stays i (restore release) db h = kept-Stays i (restore release) db refl
  serve-Stays i (remove_stash_id release endpoint stash_id) db h =
      kept-Stays i (remove_stash_id release endpoint stash_id) db refl

  serve_all-Stays :
      (i : ℕ) (qs : List Request) (db : Db)
      → any (confirms i) qs ≡ false
      → Stays i db (serve_all visit qs db)
  unfolding serve_all
  serve_all-Stays i [] db h = (refl, λ u. u)
  serve_all-Stays i (q ∷ qs) db h =
      let mine : confirms i q ≡ false = ground arith in
      Stays-both i db (serve visit q db) (serve_all visit qs (serve visit q db))
        (serve-Stays i q db mine) (serve_all-Stays i qs (serve visit q db) (ground arith))

  -- What a confirmation by a moderator who is there does to an unpinned release.
  confirm_again :
      (i by now : ℕ) (db : Db) (s : Release)
      → find (is_release i) db.releases ≡ some s
      → find (of_release i) db.confirmations ≡ none
      → account_exists (some by) db.accounts ≡ true
      → let ruled = handle_mod_release_confirm visit i by now db in
        (find (of_release i) ruled.confirmations
          ≡ some (confirmation_row i (some by) s.metadata now))
        × ((t : Release) × (find (is_release i) ruled.releases ≡ some t)
            × (t.autoconfirm_blocked ≡ false)
            × (t.metadata ≡ s.metadata))
  unfolding handle_mod_release_confirm get_release_by_id
  confirm_again i by now db s found bare known =
      let there = any-find (is_release i) db.releases s found in
      let (u, found_u, lifted) =
        find-update (is_release i) (λ x. record x { autoconfirm_blocked = false }) (λ x hit. hit)
          db.releases there in
      let same : u ≡ s = cc (found_u, found) in
      let pin =
        find-upsert (of_release i) (repin (some by) s.metadata now)
          (confirmation_row i (some by) s.metadata now) db.confirmations (λ c hit. hit)
          (==_refl i) in
      rw (found, confirmed_now i by s.metadata now db there known)
        (
          pin ∙ rw bare refl,
          (
            record u { autoconfirm_blocked = false },
            lifted,
            refl,
            ap (λ (x : Release). x.metadata) same,
          ),
        )

  -- A release whose pin a moderator took away is left with no pin and blocked by whatever requests follow, with
  -- any endpoints that pin, but a confirmation of it by a moderator. Such a confirmation then pins what the
  -- release shows and lifts the block.
  pub serve_all-unpinned :
      (qs : List Request) (i by now : ℕ) (db : Db) (r : Release)
      → find (is_release i) db.releases ≡ some r
      → any (confirms i) qs ≡ false
      → account_exists
          (some by)
          (serve_all visit qs (handle_mod_release_unconfirm visit i db)).accounts
        ≡ true
      → let later = serve_all visit qs (handle_mod_release_unconfirm visit i db) in
        let ruled = handle_mod_release_confirm visit i by now later in
        (find (of_release i) later.confirmations ≡ none)
        × ((s : Release) × (find (is_release i) later.releases ≡ some s)
            × (s.autoconfirm_blocked ≡ true)
            × (find (of_release i) ruled.confirmations
                ≡ some (confirmation_row i (some by) s.metadata now))
            × ((t : Release) × (find (is_release i) ruled.releases ≡ some t)
                × (t.autoconfirm_blocked ≡ false)
                × (t.metadata ≡ s.metadata)))
  unfolding handle_mod_release_unconfirm
  serve_all-unpinned qs i by now db r found others known =
      let first = handle_mod_release_unconfirm visit i db in
      let later = serve_all visit qs first in
      let (ids, _) =
        Stays-both i db first later
          (derived-Stays i i db (unconfirm_metadata i db) (unconfirmed-Stays i i db))
          (serve_all-Stays i qs first others) in
      let (_, derived) = Keeps-Stays i (unconfirm_metadata i db) first (derived-Keeps visit i _) in
      let (_, kept) = serve_all-Stays i qs first others in
      let (blocked, bare) = kept (derived (unconfirmed-IsUnpinned i db r found)) in
      let (s, found_s) =
        any-found (is_release i) later.releases
          (ids ∙ any-find (is_release i) db.releases r found) in
      let mine : RowBlocked (some s) =
        subst (λ (row : Option Release). RowBlocked row) found_s blocked in
      let (pin, ruled) = confirm_again i by now later s found_s bare known in
      (bare, (s, found_s, mine, pin, ruled))
