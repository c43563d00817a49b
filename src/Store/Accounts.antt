-- ===== src/Store/Accounts.antt =====
-- internal/store/account.go: the accounts, the names they are found by, and what becomes of them. The
-- database's lower() is an argument, and so are the token, the digest and the password's hash that a
-- call has drawn or computed before its statement.
pub mod Tokens
pub mod Deletion
pub mod Recount
pub mod Erasure
pub mod Purge
pub mod Passwords
use moan_subs.Prelude.{
  ℕ, zero, suc, ◌+◌, Bool, true, false, not, ◌&&◌, ◌||◌, List, [], ◌∷◌, ◌++◌, Option, none, some,
  ltb, leb, ◌==◌, if◌then◌else◌, count, any, find, map, keep,
}
use moan_subs.Prelude.Result.{Result, ok, err, guard, ◌>>=◌, ◌>>◌}
use moan_subs.Prelude.Text.{Text, text_eq}
use moan_subs.Store.Table.{update_where, delete_where, is_id, is_null}
use moan_subs.Store.Schema.{
  Db, Account, Track, Session, StashId, Role, user, moderator, admin, Authorship, credited,
  uncredited, shared, StoreError, not_found, name_taken, last_admin, invalid_credentials,
  no_password, or_not_found,
}
use moan_subs.Store.Invites.{takes_name}
use moan_subs.Store.Tracks.{live_upload_of, withdraw_row}

abbrev pub new_account : ℕ → Text → Text → Option Text → Option Text → Account
new_account id name token_hash password_hash token_enc = record {
  id = id;
  name = name;
  token_hash = token_hash;
  password_hash = password_hash;
  token_enc = token_enc;
  disabled = false;
  disabled_reason = none;
  disabled_at = none;
  role = user;
  invited_by = none;
  trusted = false;
}

abbrev pub append_account : Account → Db → Db
append_account a db = record db {
  accounts = db.accounts ++ a ∷ [];
  next_account = suc db.next_account;
}

-- createAccount, after the token was generated and encrypted.
unfoldable pub create_account :
    (Text → Text) → Text → Text → Option Text → Option Text → Db → Result StoreError (Db × ℕ)
create_account lower name token_hash password_hash token_enc db = do
  guard (not (any (takes_name lower name) db.accounts)) name_taken
  ok (
    append_account (new_account db.next_account name token_hash password_hash token_enc) db,
    db.next_account,
  )

abbrev pub has_id : ℕ → Account → Bool
has_id id a = a.id == id

abbrev pub set_role : Role → Account → Account
set_role role a = record a { role = role }

-- CreateAdminAccount: the account and its role in one transaction.
unfoldable pub create_admin_account :
    (Text → Text) → Text → Text → Text → Option Text → Db → Result StoreError (Db × ℕ)
create_admin_account lower name token_hash password_hash token_enc db = do
  (created, id) ← create_account lower name token_hash (some password_hash) token_enc db
  ok (record created { accounts = update_where (has_id id) (set_role admin) created.accounts }, id)

abbrev pub is_role : Role → Account → Bool
is_role user a = elim a.role [ user ↦ true | moderator ↦ false | admin ↦ false ]
is_role moderator a = elim a.role [ user ↦ false | moderator ↦ true | admin ↦ false ]
is_role admin a = elim a.role [ user ↦ false | moderator ↦ false | admin ↦ true ]

-- CountAccountsByRole, for one role, and HasAdmin.
unfoldable pub count_accounts_by_role : Role → Db → ℕ
count_accounts_by_role role db = count (is_role role) db.accounts

unfoldable pub has_admin : Db → Bool
has_admin db = any (is_role admin) db.accounts

-- WHERE lower(name) = lower($1).
abbrev pub is_named : (Text → Text) → Text → Account → Bool
is_named lower name a = text_eq (lower a.name) (lower name)

-- GetAccountByName, AccountNameByID and GetAccountByTokenHash.
unfoldable pub get_account_by_name : (Text → Text) → Text → Db → Result StoreError Account
get_account_by_name lower name db = or_not_found (find (is_named lower name) db.accounts)

unfoldable pub account_name_by_id : ℕ → Db → Result StoreError Text
account_name_by_id id db = do a ← or_not_found (find (has_id id) db.accounts); ok a.name

unfoldable pub get_account_by_token_hash : Text → Db → Result StoreError Account
get_account_by_token_hash token_hash db =
    or_not_found (find (λ a. text_eq a.token_hash token_hash) db.accounts)

-- An UPDATE of the named account, and ErrNotFound where it affects no row.
unfoldable pub update_named : (Text → Text) → Text → (Account → Account) → Db → Result StoreError Db
update_named lower name f db = do
  guard (any (is_named lower name) db.accounts) not_found
  ok (record db { accounts = update_where (is_named lower name) f db.accounts })

-- RotateAccountToken, SetAccountRole and SetAccountPassword.
unfoldable pub rotate_account_token :
    (Text → Text) → Text → Text → Option Text → Db → Result StoreError Db
rotate_account_token lower name token_hash token_enc =
    update_named lower name (λ a. record a { token_hash = token_hash; token_enc = token_enc })

unfoldable pub set_account_role : (Text → Text) → Text → Role → Db → Result StoreError Db
set_account_role lower name role = update_named lower name (set_role role)

unfoldable pub set_account_password : (Text → Text) → Text → Text → Db → Result StoreError Db
set_account_password lower name password_hash =
    update_named lower name (λ a. record a { password_hash = some password_hash })

-- nullif(btrim(reason), ''): spaces at either end go, and an empty text is NULL.
abbrev pub trim_front : Text → Text
trim_front [] = []
trim_front (c ∷ s) = if c == b' ' then trim_front s else c ∷ s

abbrev pub push_unless_blank : ℕ → Text → Text
push_unless_blank c [] = if c == b' ' then [] else c ∷ []
push_unless_blank c (d ∷ s) = c ∷ d ∷ s

abbrev pub trim_back : Text → Text
trim_back [] = []
trim_back (c ∷ s) = push_unless_blank c (trim_back s)

abbrev pub null_if_empty : Text → Option Text
null_if_empty [] = none
null_if_empty (c ∷ s) = some (c ∷ s)

unfoldable pub stored_reason : Text → Option Text
stored_reason reason = null_if_empty (trim_back (trim_front reason))

abbrev pub disable_row : Text → ℕ → Account → Account
disable_row reason now a = record a {
  disabled = true;
  disabled_reason = stored_reason reason;
  disabled_at = some now;
}

abbrev pub enable_row : Account → Account
enable_row a = record a { disabled = false; disabled_reason = none; disabled_at = none }

-- SetAccountDisabled.
unfoldable pub set_account_disabled :
    (Text → Text) → Text → Bool → Text → ℕ → Db → Result StoreError Db
set_account_disabled lower name disabled reason now =
    update_named lower name (if disabled then disable_row reason now else enable_row)

-- PurgeAccount, with the number of tracks that it withdrew.
unfoldable pub purge_account : (Text → Text) → ℕ → Text → Text → ℕ → Db → Db × ℕ
purge_account lower account name reason now db = (
  record db {
    tracks = update_where (live_upload_of account) (withdraw_row now reason) db.tracks;
    stash_ids = delete_where (λ s. is_id account s.added_by) db.stash_ids;
    accounts = update_where (is_named lower name) (disable_row reason now) db.accounts;
    sessions = delete_where (λ s. s.account_id == account) db.sessions;
  },
  count (live_upload_of account) db.tracks,
)

-- VerifyAccountPassword: the encoded hash that VerifyPassword is run on, and the outcome. An unknown
-- name and an account without a password cost a run on the filler.
unfoldable pub verify_account_password :
    (Text → Text)
    → (Text → Text → Bool)
    → Text
    → Text
    → Text
    → Db
    → List Text × Result StoreError Account
verify_account_password lower verify filler name password db =
    elim (find (is_named lower name) db.accounts) [
      | none ↦ (filler ∷ [], err invalid_credentials)
      | some a ↦ elim a.password_hash [
        | none ↦ (filler ∷ [], err no_password)
        | some hash ↦ (hash ∷ [], if verify hash password then ok a else err invalid_credentials)
      ]
    ]
