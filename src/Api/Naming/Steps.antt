-- ===== src/Api/Naming/Steps.antt =====
-- internal/api/subtitles.go, metadata_api.go, metadata_mod.go and mod.go: what a request keeps of the pins that does
-- not rule on them.
use moan_subs.Prelude.{
  ℕ, ◌≡◌, ◌⊎◌, refl, Bool, true, false, not, ◌||◌, List, Option, some, ltb, ◌==◌, Bool-cases, inl,
  inr,
}
use moan_subs.Prelude.Result.{Result, ok, err}
use moan_subs.Prelude.Text.{Text}
use moan_subs.Store.Table.{is_null}
use moan_subs.Store.Schema.{Db, Release, Metadata, StoreError}
use moan_subs.Store.StashIds.{NewStashId, add_release_stash_ids}
use moan_subs.Store.Metadata.{MetadataProposal}
use moan_subs.Store.Metadata.Derive.{Candidate, derive_after_proposal}
use moan_subs.Store.Metadata.Regroup.{link_and_derive}
use moan_subs.Store.Metadata.Regroup.Regrouped.{link_and_derive_lem, unlink_and_derive_lem}
use moan_subs.Store.Metadata.Keeping.{Keeps, keeps_all, keeps_both}
use moan_subs.Store.Metadata.Framing.{
  KeptBy, attached-KeptBy, withdraw_release-KeptBy, restore_release-KeptBy, removed-Keeps,
}
use moan_subs.Api.Naming.{
  logged, linked_or_logged, maybe_auto_confirm, record_upload_metadata,
  handle_release_propose_metadata, handle_mod_release_link, handle_mod_release_unlink, proposed,
}
use moan_subs.Api.Naming.Contributing.{
  MetadataEntry, observed, resolve_metadata_release, after_contributing, contribute_to,
  contribute_one, after_attaching, upload_observed,
}
use moan_subs.Api.Naming.Keeping.{
  maybe_auto_confirm-Keeps, derived-Keeps, uploaded, recorded-Keeps, proposed-Keeps,
}
use moan_subs.Api.Naming.Requests.{
  Request, upload, contribute, propose, confirm, unconfirm, purge, purge_work, link, unlink,
  withdraw, restore, remove_stash_id, rules_on_pins, serve,
}

logged-Keeps :
    (result : Result StoreError Db) (db : Db) → KeptBy db result → Keeps db (logged result db)
logged-Keeps (err e) db h = keeps_all db
logged-Keeps (ok db') db h = h

module _ (visit : List Candidate → List Candidate) where
  contributed :
      (enabled : Bool) (endpoints : Option (List Text)) (release account : ℕ)
      (ids : List NewStashId) (now : ℕ) (db : Db) (result : Result StoreError (Db × Bool))
      → ((stored : Db) (b : Bool) → result ≡ ok (stored, b) → Keeps db stored)
      → Keeps db (after_contributing visit enabled endpoints release account ids now result db)
  contributed enabled endpoints release account ids now db (err e) h = keeps_all db
  contributed enabled endpoints release account ids now db (ok (stored, false)) h =
      h stored false refl
  contributed enabled endpoints release account ids now db (ok (stored, true)) h =
      let attached = logged (add_release_stash_ids release ids (some account) stored) stored in
      let derived = logged (derive_after_proposal visit release attached) attached in
      let last = maybe_auto_confirm enabled endpoints release now derived in
      keeps_both db stored last (h stored true refl) (
        keeps_both stored attached last
          (logged-Keeps _ stored (attached-KeptBy release ids (some account) stored))
          (keeps_both attached derived last (derived-Keeps visit release attached)
            (maybe_auto_confirm-Keeps enabled endpoints release now derived)))

  contributed_to :
      (enabled : Bool) (endpoints : Option (List Text)) (account : ℕ) (e : MetadataEntry) (now : ℕ)
      (found : Result StoreError Release) (db : Db)
      → Keeps db (contribute_to visit enabled endpoints account e now found db)
  contributed_to enabled endpoints account e now (err x) db = keeps_all db
  contributed_to enabled endpoints account e now (ok r) db =
      elim (Bool-cases (is_null r.withdrawn_at)) [
        | inl live ↦ rw live (
            contributed enabled endpoints r.id account e.stash_ids now db _ (λ stored b h.
              recorded-Keeps visit (observed r.id account e.metadata e.stash_ids) now db stored b
                h))
        | inr down ↦ rw down (keeps_all db)
      ]

  upload_recorded :
      (enabled : Bool) (endpoints : Option (List Text)) (n : MetadataProposal) (now : ℕ)
      (result : Result StoreError Db) (db : Db)
      → KeptBy db result
      → Keeps db (after_attaching visit enabled endpoints n now result db)
  unfolding record_upload_metadata
  upload_recorded enabled endpoints n now (err e) db h = keeps_all db
  upload_recorded enabled endpoints n now (ok attached) db h =
      keeps_both db attached (record_upload_metadata visit enabled endpoints n now attached) h (
        uploaded visit enabled endpoints n.release_id now attached _
          (λ stored b e. recorded-Keeps visit n now attached stored b e))

  upload-Keeps :
      (enabled : Bool) (endpoints : Option (List Text)) (r : Release) (account : ℕ) (m : Metadata)
      (ids : List NewStashId) (now : ℕ) (db : Db)
      → Keeps db (upload_observed visit enabled endpoints r account m ids now db)
  unfolding upload_observed
  upload-Keeps enabled endpoints r account m ids now db =
      elim (Bool-cases (is_null r.withdrawn_at)) [
        | inl live ↦ rw live (
            upload_recorded enabled endpoints (observed r.id account m ids) now
              (add_release_stash_ids r.id ids (some account) db) db
              (attached-KeptBy r.id ids (some account) db))
        | inr down ↦ rw down (keeps_all db)
      ]

  link-Keeps : (a b : ℕ) (db : Db) → Keeps db (handle_mod_release_link visit a b db)
  unfolding handle_mod_release_link
  link-Keeps a b db = elim (Bool-cases (not (ltb 0 b) || b == a)) [
    | inl e ↦ rw e (keeps_all db)
    | inr e ↦ rw e (linked (link_and_derive_lem visit a b db))
  ]
    where
      linked :
          ((x : StoreError) × (link_and_derive visit a b db ≡ err x))
            ⊎ ((db' : Db) × (w : ℕ) × (link_and_derive visit a b db ≡ ok (db', w)) × Keeps db db')
          → Keeps db (linked_or_logged (link_and_derive visit a b db) db)
      linked (inl (x, refused)) = rw refused (keeps_all db)
      linked (inr (db', w, done, keeps)) = rw done keeps

  unlink-Keeps : (release : ℕ) (db : Db) → Keeps db (handle_mod_release_unlink visit release db)
  unfolding handle_mod_release_unlink
  unlink-Keeps release db = elim (unlink_and_derive_lem visit release db) [
    | inl (x, refused) ↦ rw refused (keeps_all db)
    | inr (db', done, keeps) ↦ rw done keeps
  ]

  -- A request that does not rule on pins keeps them.
  pub serve-Keeps : (q : Request) (db : Db) → rules_on_pins q ≡ false → Keeps db (serve visit q db)
  unfolding serve handle_release_propose_metadata contribute_one
  serve-Keeps (upload enabled endpoints r account m ids now) db h =
      upload-Keeps enabled endpoints r account m ids now db
  serve-Keeps (contribute enabled endpoints account e now) db h =
      contributed_to enabled endpoints account e now (resolve_metadata_release e db) db
  serve-Keeps (propose enabled endpoints release m account now) db h =
      proposed-Keeps visit enabled endpoints release account now db _
        (λ stored b e. recorded-Keeps visit (proposed release account m) now db stored b e)
  serve-Keeps (confirm release by now) db h = absurd (cc)
  serve-Keeps (unconfirm release) db h = absurd (cc)
  serve-Keeps (purge release) db h = absurd (cc)
  serve-Keeps (purge_work release) db h = absurd (cc)
  serve-Keeps (link a b) db h = link-Keeps a b db
  serve-Keeps (unlink release) db h = unlink-Keeps release db
  serve-Keeps (withdraw release reason now) db h =
      logged-Keeps _ db (withdraw_release-KeptBy release reason now db)
  serve-Keeps (restore release) db h = logged-Keeps _ db (restore_release-KeptBy release db)
  serve-Keeps (remove_stash_id release endpoint stash_id) db h =
      removed-Keeps release endpoint stash_id db
