-- ===== src/Store/Accounts/Purge.antt =====
-- internal/store/account.go: what PurgeAccount leaves of an account's contributions.
use moan_subs.Prelude.{
  ℕ, ◌≡◌, refl, Bool, true, false, not, ◌&&◌, List, [], ◌∷◌, arith, ◌==◌, count, Bool-cases, inl,
  inr,
}
use moan_subs.Prelude.Text.{Text}
use moan_subs.Store.Table.{
  update_where, is_id, is_null, count-delete_where_self, count-update_where,
}
use moan_subs.Store.Schema.{Db, Account, Track}
use moan_subs.Store.Tracks.{live_upload_of, withdraw_row}
use moan_subs.Store.Accounts.{is_named, disable_row, purge_account}

-- An update that takes a row out of a test leaves none that passes both tests.
update_where-Out {ℓ} :
    {A : Type ℓ} (p : A → Bool) (f : A → A)
    → ((r : A) → p r ≡ true → p (f r) ≡ false)
    → (rows : List A) → count p (update_where p f rows) ≡ 0
update_where-Out p f out [] = refl
update_where-Out p f out (r ∷ rows) = elim (Bool-cases (p r)) [
  | inl e ↦ rw (e, out r e) (update_where-Out p f out rows)
  | inr e ↦ rw (e, e) (update_where-Out p f out rows)
]

abbrev pub named_enabled : (Text → Text) → Text → Account → Bool
named_enabled lower name a = is_named lower name a && not a.disabled

disabled-Out :
    (lower : Text → Text) (name reason : Text) (now : ℕ) (rows : List Account)
    → count
        (named_enabled lower name)
        (update_where (is_named lower name) (disable_row reason now) rows)
      ≡ 0
disabled-Out lower name reason now [] = refl
disabled-Out lower name reason now (a ∷ rows) = elim (Bool-cases (is_named lower name a)) [
  | inl e ↦ rw (e, e) (disabled-Out lower name reason now rows)
  | inr e ↦ rw (e, e) (disabled-Out lower name reason now rows)
]

abbrev pub live_other : ℕ → Track → Bool
live_other account t = is_null t.withdrawn_at && not (is_id account t.uploader_id)

-- After a purge the account has no upload that is not withdrawn, no session, and no Stash id that it
-- added; no account of the name is enabled; the live tracks of other uploaders are as many as before; and
-- the number returned is that of the account's live uploads.
pub purge_account-Out :
    (lower : Text → Text) (account : ℕ) (name reason : Text) (now : ℕ) (db : Db)
    → let (db', n) = purge_account lower account name reason now db in
      (count (live_upload_of account) db'.tracks ≡ 0)
      × (count (λ s. s.account_id == account) db'.sessions ≡ 0)
      × (count (λ s. is_id account s.added_by) db'.stash_ids ≡ 0)
      × (count (named_enabled lower name) db'.accounts ≡ 0)
      × (count (live_other account) db'.tracks ≡ count (live_other account) db.tracks)
      × (n ≡ count (live_upload_of account) db.tracks)
unfolding purge_account
purge_account-Out lower account name reason now db = (
  update_where-Out (live_upload_of account) (withdraw_row now reason) (λ t h. ground arith)
      db.tracks,
  count-delete_where_self (λ s. s.account_id == account) db.sessions,
  count-delete_where_self (λ s. is_id account s.added_by) db.stash_ids,
  disabled-Out lower name reason now db.accounts,
  count-update_where (live_other account) (live_upload_of account) (withdraw_row now reason)
      (λ t h. ground arith) db.tracks,
  refl,
)
