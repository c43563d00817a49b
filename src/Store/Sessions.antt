-- ===== src/Store/Sessions.antt =====
-- internal/store/session.go: browser sessions. `now` is the database's time, `clock` the process's.
pub mod Lifetime
use moan_subs.Prelude.{
  ℕ, ◌+◌, Bool, true, false, not, ◌&&◌, ◌||◌, List, [], ◌∷◌, ◌++◌, Option, none, some, ltb, leb,
  ◌==◌, if◌then◌else◌, any, find,
}
use moan_subs.Prelude.Int.{ℤ}
use moan_subs.Prelude.Result.{Result, ok, err, guard, ◌>>=◌, ◌>>◌}
use moan_subs.Prelude.Text.{Text, text_eq}
use moan_subs.Store.Table.{delete_where}
use moan_subs.Store.Schema.{
  Db, Account, Session, StoreError, not_found, foreign_key, unique_violation, or_not_found,
}
use moan_subs.Store.Accounts.{has_id}
use moan_subs.Store.Accounts.Tokens.{hex_encode}

abbrev pub session_row : Text → ℕ → ℕ → Session
session_row id account expires_at = record {
  id = id;
  account_id = account;
  expires_at = expires_at;
}

abbrev pub has_session_id : Text → Session → Bool
has_session_id id s = text_eq s.id id

abbrev pub sweep_sessions : ℕ → Db → Db
sweep_sessions now db = record db {
  sessions = delete_where (λ s. ltb s.expires_at now) db.sessions;
}

abbrev pub insert_session : Session → Db → Result StoreError Db
insert_session s db = do
  guard (not (any (has_session_id s.id) db.sessions)) unique_violation
  guard (any (has_id s.account_id) db.accounts) foreign_key
  ok (record db { sessions = db.sessions ++ s ∷ [] })

-- CreateSession, with the bytes that were drawn: the id and the time of expiry. The sweep is a statement
-- of its own and stays if the insertion fails.
unfoldable pub create_session : ℕ → ℕ → List ℕ → ℕ → ℕ → Db → Db × Result StoreError (Text × ℕ)
create_session account ttl bytes clock now db =
    let swept = sweep_sessions now db in
    let s = session_row (hex_encode bytes) account (clock + ttl) in
    elim (insert_session s swept) [
      | ok stored ↦ (stored, ok (s.id, s.expires_at))
      | err e ↦ (swept, err e)
    ]

abbrev pub is_live_session : Text → ℕ → Session → Bool
is_live_session id now s = has_session_id id s && ltb now s.expires_at

-- GetSessionAccount: the session joined with its account.
unfoldable pub get_session_account : Text → ℕ → Db → Result StoreError Account
get_session_account id now db = do
  s ← or_not_found (find (is_live_session id now) db.sessions)
  or_not_found (find (has_id s.account_id) db.accounts)

-- DeleteSession, DeleteSessionsForAccount and DeleteOtherSessions.
unfoldable pub delete_session : Text → Db → Db
delete_session id db = record db { sessions = delete_where (has_session_id id) db.sessions }

unfoldable pub delete_sessions_for_account : ℕ → Db → Db
delete_sessions_for_account account db = record db {
  sessions = delete_where (λ s. s.account_id == account) db.sessions;
}

unfoldable pub delete_other_sessions : ℕ → Text → Db → Db
delete_other_sessions account kept db = record db {
  sessions = delete_where (λ s. s.account_id == account && not (has_session_id kept s)) db.sessions;
}
