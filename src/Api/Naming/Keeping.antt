-- ===== src/Api/Naming/Keeping.antt =====
-- internal/api/subtitles.go, metadata_api.go and metadata_mod.go: what the steps of an account's request keep of the
-- pins.
use moan_subs.Prelude.{
  ℕ, ◌≡◌, ◌≢◌, ◌⊎◌, refl, sym, ap, subst, ◌∙◌, Bool, true, false, List, [], ◌∷◌, Option, none, some,
  ◌==◌, any, find, Bool-cases, Option-cases, inl, inr, ==_iff,
}
use moan_subs.Prelude.Result.{Result, ok, err}
use moan_subs.Prelude.Text.{Text}
use moan_subs.Store.Table.Find.{find-none}
use moan_subs.Store.Schema.{Db, Release, StoreError}
use moan_subs.Store.Releases.{is_release}
use moan_subs.Store.Metadata.{MetadataProposal, record_proposal, delete_proposal, of_release}
use moan_subs.Store.Metadata.Blocks.{RowBlocked, IsBlocked, IsUnpinned}
use moan_subs.Store.Metadata.Derive.{Candidate, derive_after_proposal}
use moan_subs.Store.Metadata.Pins.{derive_after_proposal-IsPinned}
use moan_subs.Store.Metadata.Confirming.{record_proposal-releases}
use moan_subs.Store.Metadata.AutoConfirm.{Outcome, eligible, auto_confirm_if_eligible}
use moan_subs.Store.Metadata.AutoPins.{IsAutoPinned, auto_confirm_if_eligible_lem}
use moan_subs.Store.Metadata.Keeping.{Keeps, keeps_all, keeps_both, keeps_rows, derived_once}
use moan_subs.Api.Naming.{
  logged, pinned_or_logged, or_default, maybe_auto_confirm, after_recording, then_auto_confirm,
  withdrawn, after_proposing,
}

auto_missing :
    (release : ℕ) (endpoints : List Text) (now : ℕ) (db : Db)
    → find (is_release release) db.releases ≡ none
    → pinned_or_logged (auto_confirm_if_eligible release endpoints now db) db ≡ db
unfolding auto_confirm_if_eligible
auto_missing release [] now db e = refl
auto_missing release (t ∷ ts) now db e = rw e refl

-- A release that is blocked is not the one that is pinned.
auto_confirm-IsUnpinned :
    (release : ℕ) (endpoints : List Text) (now : ℕ) (db db' : Db) (r : Release) (o : Outcome)
    (i : ℕ)
    → find (is_release release) db.releases ≡ some r
    → ((o ≡ eligible) × IsAutoPinned release endpoints now db r db') ⊎ ((o ≢ eligible) × (db' ≡ db))
    → db'.releases ≡ db.releases
    → ((j : ℕ)
        → (release == j) ≡ false
        → find (of_release j) db'.confirmations ≡ find (of_release j) db.confirmations)
    → IsUnpinned i db
    → IsUnpinned i db'
auto_confirm-IsUnpinned release endpoints now db db' r o i found (inr (_, same)) releases others
      unpinned =
    subst (λ (d : Db). IsUnpinned i d) (sym same) unpinned
auto_confirm-IsUnpinned release endpoints now db db' r o i found (inl (_, (free, _, _, _, _)))
      releases others (blocked, bare) =
    (
      subst (λ (rows : List Release). IsBlocked i rows) (sym releases) blocked,
      elim (Bool-cases (release == i)) [
        | inl e ↦
            let same : release ≡ i = (==_iff release i).0 e in
            let mine : IsBlocked release db.releases =
              subst (λ (j : ℕ). IsBlocked j db.releases) (sym same) blocked in
            let held : RowBlocked (some r) =
              subst (λ (row : Option Release). RowBlocked row) found mine in
            absurd (cc (held, free))
        | inr e ↦ others i e ∙ bare
      ],
    )

pub maybe_auto_confirm-Keeps :
    (enabled : Bool) (endpoints : Option (List Text)) (release now : ℕ) (db : Db)
    → Keeps db (maybe_auto_confirm enabled endpoints release now db)
unfolding maybe_auto_confirm
maybe_auto_confirm-Keeps false endpoints release now db = keeps_all db
maybe_auto_confirm-Keeps true endpoints release now db =
    elim (Option-cases (find (is_release release) db.releases)) [
      | inl e ↦ rw (auto_missing release (or_default endpoints) now db e) (keeps_all db)
      | inr (r, found) ↦
          let (db', o, e, either, (releases, held, others), pinned) =
            auto_confirm_if_eligible_lem release (or_default endpoints) now db r found in
          rw e (
            pinned,
            λ i. ap (λ (rows : List Release). any (is_release i) rows) releases,
            held,
            λ i unpinned.
                auto_confirm-IsUnpinned release (or_default endpoints) now db db' r o i found either
                  releases others unpinned,
          )
    ]

module _ (visit : List Candidate → List Candidate) where
  pub derived-Keeps :
      (release : ℕ) (db : Db) → Keeps db (logged (derive_after_proposal visit release db) db)
  unfolding derive_after_proposal
  derived-Keeps release db = elim (Bool-cases (any (is_release release) db.releases)) [
    | inl there ↦
        let (db', e, keeps) =
          derived_once visit (derive_after_proposal visit release db) db
            (derive_after_proposal-IsPinned visit release db there) in
        rw e keeps
    | inr absent ↦ rw (find-none (is_release release) db.releases absent) (keeps_all db)
  ]

  pub uploaded :
      (enabled : Bool) (endpoints : Option (List Text)) (release now : ℕ) (db : Db)
      (result : Result StoreError (Db × Bool))
      → ((stored : Db) (b : Bool) → result ≡ ok (stored, b) → Keeps db stored)
      → Keeps db (after_recording visit enabled endpoints release now result db)
  uploaded enabled endpoints release now db (err e) h = keeps_all db
  uploaded enabled endpoints release now db (ok (stored, false)) h = h stored false refl
  uploaded enabled endpoints release now db (ok (stored, true)) h =
      let derived = logged (derive_after_proposal visit release stored) stored in
      let last = maybe_auto_confirm enabled endpoints release now derived in
      keeps_both db stored last (h stored true refl) (
        keeps_both stored derived last (derived-Keeps release stored)
          (maybe_auto_confirm-Keeps enabled endpoints release now derived))

  pub recorded-Keeps :
      (n : MetadataProposal) (now : ℕ) (db stored : Db) (b : Bool)
      → record_proposal n now db ≡ ok (stored, b)
      → Keeps db stored
  recorded-Keeps n now db stored b e =
      let (releases, pins) = record_proposal-releases n now db stored b e in
      keeps_rows db stored releases pins

  confirmed_after :
      (enabled : Bool) (endpoints : Option (List Text)) (release now : ℕ) (stored : Db)
      (result : Result StoreError Db)
      → result ≡ derive_after_proposal visit release stored
      → Keeps stored (then_auto_confirm visit enabled endpoints release now result stored)
  confirmed_after enabled endpoints release now stored (err x) e = keeps_all stored
  confirmed_after enabled endpoints release now stored (ok derived) e =
      let kept : Keeps stored derived =
        subst (λ (r : Result StoreError Db). Keeps stored (logged r stored)) (sym e)
          (derived-Keeps release stored) in
      keeps_both stored derived (maybe_auto_confirm enabled endpoints release now derived) kept
        (maybe_auto_confirm-Keeps enabled endpoints release now derived)

  withdrawn-Keeps :
      (release : ℕ) (db left : Db) (b : Bool)
      → Keeps db left
      → Keeps db (withdrawn visit release (left, b))
  withdrawn-Keeps release db left false h = h
  withdrawn-Keeps release db left true h =
      keeps_both db left (logged (derive_after_proposal visit release left) left) h
        (derived-Keeps release left)

  deleted-Keeps :
      (release account : ℕ) (db : Db)
      → Keeps db (withdrawn visit release (delete_proposal release account db))
  unfolding delete_proposal
  deleted-Keeps release account db =
      withdrawn-Keeps release db (delete_proposal release account db).0
        (delete_proposal release account db).1
        (keeps_rows db (delete_proposal release account db).0 refl refl)

  pub proposed-Keeps :
      (enabled : Bool) (endpoints : Option (List Text)) (release account now : ℕ) (db : Db)
      (result : Result StoreError (Db × Bool))
      → ((stored : Db) (b : Bool) → result ≡ ok (stored, b) → Keeps db stored)
      → Keeps db (after_proposing visit enabled endpoints release account now result db)
  proposed-Keeps enabled endpoints release account now db (err e) h = keeps_all db
  proposed-Keeps enabled endpoints release account now db (ok (stored, false)) h =
      keeps_both db stored (withdrawn visit release (delete_proposal release account stored))
        (h stored false refl) (deleted-Keeps release account stored)
  proposed-Keeps enabled endpoints release account now db (ok (stored, true)) h =
      keeps_both db stored
        (then_auto_confirm visit enabled endpoints release now
          (derive_after_proposal visit release stored) stored)
        (h stored true refl)
        (confirmed_after enabled endpoints release now stored
          (derive_after_proposal visit release stored) refl)
