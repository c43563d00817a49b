-- ===== src/Store/Metadata/Unpinning.antt =====
-- internal/store/metadata.go: what keeps a release unpinned, and what unpins it.
use moan_subs.Prelude.{
  ℕ, ◌≡◌, refl, sym, subst, ◌∙◌, true, false, List, Option, some, ◌==◌, any, find,
}
use moan_subs.Prelude.Result.{ok}
use moan_subs.Store.Table.Find.{any-find, find-delete_self}
use moan_subs.Store.Table.Keep.{any-update_unseen}
use moan_subs.Store.Table.Upsert.{find-update}
use moan_subs.Store.Schema.{Db, Release, Metadata}
use moan_subs.Store.Removals.{account_exists}
use moan_subs.Store.Releases.{is_release}
use moan_subs.Store.Metadata.{
  of_release, block_autoconfirm, put_confirmation, confirm_metadata, unconfirm_metadata,
  purge_proposals,
}
use moan_subs.Store.Metadata.Blocks.{
  RowBlocked, IsUnpinned, update-IsBlocked, update-IsBlocked_other, deleted-bare,
  put_confirmation-bare,
}
use moan_subs.Store.Metadata.Keeping.{Keeps}

-- The release is there as before, and stays unpinned.
abbrev pub Stays : ℕ → Db → Db → Type 0
Stays i db db' =
    (any (is_release i) db'.releases ≡ any (is_release i) db.releases)
    × (IsUnpinned i db → IsUnpinned i db')

pub Stays-both : (i : ℕ) (db db' db'' : Db) → Stays i db db' → Stays i db' db'' → Stays i db db''
Stays-both i db db' db'' (s, u) (s', u') = (s' ∙ s, λ h. u' (u h))

pub Keeps-Stays : (i : ℕ) (db db' : Db) → Keeps db db' → Stays i db db'
Keeps-Stays i db db' (_, ids, _, unpinned) = (ids i, unpinned i)

pub confirmed_now :
    (release by : ℕ) (m : Metadata) (now : ℕ) (db : Db)
    → any (is_release release) db.releases ≡ true
    → account_exists (some by) db.accounts ≡ true
    → confirm_metadata release (some by) m now db
      ≡ ok (block_autoconfirm false release (put_confirmation release (some by) m now db))
unfolding confirm_metadata
confirmed_now release by m now db there known = rw (there, known) refl

pub purged-Stays : (i : ℕ) (ids : List ℕ) (db : Db) → Stays i db (purge_proposals ids db)
unfolding purge_proposals
purged-Stays i ids db = (
  refl,
  λ (blocked, bare).
      (blocked, deleted-bare (λ c. any (λ j. j == c.release_id) ids) i db.confirmations bare),
)

pub unconfirmed-Stays : (i release : ℕ) (db : Db) → Stays i db (unconfirm_metadata release db)
unfolding unconfirm_metadata
unconfirmed-Stays i release db = (
  any-update_unseen (is_release i) (is_release release)
      (λ r. record r { autoconfirm_blocked = true }) (λ r. refl) db.releases,
  λ (blocked, bare). (
    update-IsBlocked (is_release release) (λ r. record r { autoconfirm_blocked = true }) (λ r. refl)
        (λ r e. refl) i db.releases blocked,
    deleted-bare (of_release release) i db.confirmations bare,
  ),
)

-- A confirmation of another release.
pub pinned-Stays :
    (i release by : ℕ) (m : Metadata) (now : ℕ) (db : Db)
    → (release == i) ≡ false
    → Stays i db (block_autoconfirm false release (put_confirmation release (some by) m now db))
pinned-Stays i release by m now db ne = (
  any-update_unseen (is_release i) (is_release release)
      (λ r. record r { autoconfirm_blocked = false }) (λ r. refl) db.releases,
  λ (blocked, bare). (
    update-IsBlocked_other release (λ r. record r { autoconfirm_blocked = false }) (λ r. refl) i ne
        db.releases blocked,
    put_confirmation-bare release (some by) m now i db ne ∙ bare,
  ),
)

pub unconfirmed-IsUnpinned :
    (i : ℕ) (db : Db) (r : Release)
    → find (is_release i) db.releases ≡ some r
    → IsUnpinned i (unconfirm_metadata i db)
unfolding unconfirm_metadata
unconfirmed-IsUnpinned i db r found =
    let (s, _, blocked) =
      find-update (is_release i) (λ s. record s { autoconfirm_blocked = true }) (λ s hit. hit)
        db.releases (any-find (is_release i) db.releases r found) in
    (
      subst (λ (row : Option Release). RowBlocked row) (sym blocked) refl,
      find-delete_self (of_release i) db.confirmations,
    )
