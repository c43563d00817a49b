-- ===== src/Store/Accounts/Erasure.antt =====
-- internal/store/account.go: what DeleteAccount leaves of an account, of the tallies and of the admins.
use moan_subs.Prelude.{
  ℕ, ◌≤◌, ◌≡◌, refl, ap, ◌∙◌, Bool, true, false, ◌||◌, List, Option, none, some, arith, ◌==◌, count,
  find, map, Bool-cases, inl, inr,
}
use moan_subs.Prelude.Result.{ok}
use moan_subs.Store.Table.{delete_where, is_id, count-delete_where_self}
use moan_subs.Store.Table.Keep.{count-map, count_nowhere, delete-count, count-delete_found}
use moan_subs.Store.Schema.{Db, Account, Vote, admin}
use moan_subs.Store.Votes.Tallies.{IsTallied}
use moan_subs.Store.Accounts.{has_id, is_role}
use moan_subs.Store.Accounts.Deletion.{
  unlink_tracks, delete_votes, voted_tracks, recompute_each, unless_id, delete_account_row,
  forget_inviter, forget_uploader, forget_adder, forget_filer, forget_proposer, forget_confirmer,
  erase_account, delete_account,
}
use moan_subs.Store.Accounts.Recount.{
  recompute_each-votes, recompute_each-accounts, erase_account-IsTallied,
}

unless_id-other : (account : ℕ) (n : Option ℕ) → is_id account (unless_id account n) ≡ false
unless_id-other account none = refl
unless_id-other account (some m) = ground arith

-- No row of the database is the account's or refers to it.
abbrev pub IsForgotten : ℕ → Db → Type 0
IsForgotten account db =
    (count (has_id account) db.accounts ≡ 0)
    × (count (λ a. is_id account a.invited_by) db.accounts ≡ 0)
    × (count (λ v. v.account_id == account) db.votes ≡ 0)
    × (count (λ t. is_id account t.uploader_id) db.tracks ≡ 0)
    × (count (λ f. f.account_id == account) db.fit_reports ≡ 0)
    × (count (λ s. s.account_id == account) db.sessions ≡ 0)
    × (count (λ i. i.created_by == account) db.invites ≡ 0)
    × (count (λ s. is_id account s.added_by) db.stash_ids ≡ 0)
    × (count (λ r. is_id account r.account_id || is_id account r.handled_by) db.removals ≡ 0)
    × (count (λ p. is_id account p.proposed_by) db.proposals ≡ 0)
    × (count (λ c. is_id account c.confirmed_by) db.confirmations ≡ 0)
    × (count (λ k. k.account_id == account) db.stashbox_keys ≡ 0)

count-forgotten {ℓ} :
    {A : Type ℓ} (q : A → Bool) (f : A → A) (rows : List A)
    → ((r : A) → q (f r) ≡ false)
    → count q (map f rows) ≡ 0
count-forgotten q f rows h = count-map q f rows ∙ count_nowhere (λ r. q (f r)) h rows

erase_account-IsForgotten : (account : ℕ) (db : Db) → IsForgotten account (erase_account account db)
unfolding erase_account delete_account_row
erase_account-IsForgotten account db =
    let stored = delete_votes account (unlink_tracks account db) in
    let left = recompute_each (voted_tracks account db) stored in
    (
      count-map (has_id account) (forget_inviter account)
            (delete_where (has_id account) left.accounts)
          ∙ count-delete_where_self (has_id account) left.accounts,
      count-forgotten (λ a. is_id account a.invited_by) (forget_inviter account)
          (delete_where (has_id account) left.accounts) (λ a. unless_id-other account a.invited_by),
      ap (λ (votes : List Vote). count (λ v. v.account_id == account) votes)
            (recompute_each-votes (voted_tracks account db) stored)
          ∙ count-delete_where_self (λ v. v.account_id == account) db.votes,
      count-forgotten (λ t. is_id account t.uploader_id) (forget_uploader account) left.tracks
          (λ t. unless_id-other account t.uploader_id),
      count-delete_where_self _ left.fit_reports,
      count-delete_where_self _ left.sessions,
      count-delete_where_self _ left.invites,
      count-forgotten (λ s. is_id account s.added_by) (forget_adder account) left.stash_ids
          (λ s. unless_id-other account s.added_by),
      count-forgotten (λ r. is_id account r.account_id || is_id account r.handled_by)
          (forget_filer account) left.removals
          (λ r.
            ground
              (arith, unless_id-other account r.account_id, unless_id-other account r.handled_by)),
      count-forgotten (λ p. is_id account p.proposed_by) (forget_proposer account) left.proposals
          (λ p. unless_id-other account p.proposed_by),
      count-forgotten (λ c. is_id account c.confirmed_by) (forget_confirmer account)
          left.confirmations (λ c. unless_id-other account c.confirmed_by),
      count-delete_where_self (λ k. k.account_id == account) left.stashbox_keys,
    )

erase_account-admins :
    (account : ℕ) (db : Db)
    → count (is_role admin) (erase_account account db).accounts
      ≡ count (is_role admin) (delete_where (has_id account) db.accounts)
unfolding erase_account delete_account_row
erase_account-admins account db =
    let stored = delete_votes account (unlink_tracks account db) in
    let left = recompute_each (voted_tracks account db) stored in
    count-map (is_role admin) (forget_inviter account) (delete_where (has_id account) left.accounts)
    ∙ ap (λ (rows : List Account). count (is_role admin) (delete_where (has_id account) rows))
        (recompute_each-accounts (voted_tracks account db) stored)

admins-left :
    (account : ℕ) (rows : List Account) (a : Account)
    → find (has_id account) rows ≡ some a
    → count (has_id account) rows ≤ 1
    → (is_role admin a ≡ true → 2 ≤ count (is_role admin) rows)
    → 1 ≤ count (is_role admin) rows
    → 1 ≤ count (is_role admin) (delete_where (has_id account) rows)
admins-left account rows a found one enough some_admin = elim (Bool-cases (is_role admin a)) [
  | inl e ↦ omega (arith, enough e, delete-count (is_role admin) (has_id account) rows)
  | inr e ↦ omega (arith, count-delete_found (is_role admin) (has_id account) rows a found e one)
]

-- Deleting an account succeeds if there is one row with its id and it is not the last admin. No row is
-- left that is the account's or refers to it, the tallies of all tracks are right if they were, and there
-- is still an admin if there was one.
pub delete_account-IsForgotten :
    (account : ℕ) (db : Db) (a : Account)
    → find (has_id account) db.accounts ≡ some a
    → count (has_id account) db.accounts ≤ 1
    → (is_role admin a ≡ true → 2 ≤ count (is_role admin) db.accounts)
    → (db' : Db) × (delete_account account db ≡ ok db')
      × IsForgotten account db'
      × (IsTallied db → IsTallied db')
      × (1 ≤ count (is_role admin) db.accounts → 1 ≤ count (is_role admin) db'.accounts)
unfolding delete_account
delete_account-IsForgotten account db a found one enough = (
  erase_account account db,
  rw (found, delete_account) (ground (arith, enough)),
  erase_account-IsForgotten account db,
  erase_account-IsTallied account db,
  λ some_admin. omega (
    arith,
    erase_account-admins account db,
    admins-left account db.accounts a found one enough some_admin,
  ),
)
