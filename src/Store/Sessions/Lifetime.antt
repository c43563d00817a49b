-- ===== src/Store/Sessions/Lifetime.antt =====
-- internal/store/session.go: how long a session authenticates its account.
use moan_subs.Prelude.{
  ℕ, ◌+◌, ◌≤◌, ◌<◌, ◌≡◌, ◌≢◌, refl, true, false, not, ◌&&◌, List, [], ◌∷◌, ◌++◌, some, arith, ltb,
  ◌==◌, any, find, All, Bool-cases, inl, inr, ◌⊎◌,
}
use moan_subs.Prelude.Result.{ok, err}
use moan_subs.Prelude.Text.{Text, text_eq, text_eq_refl}
use moan_subs.Store.Table.Find.{
  find-delete_where, find-append_left, find-append_right, find-and, any-delete_where, any-find,
}
use moan_subs.Store.Schema.{Db, Account, Session, StoreError, unique_violation, foreign_key}
use moan_subs.Store.Accounts.{has_id}
use moan_subs.Store.Accounts.Tokens.{hex_encode}
use moan_subs.Store.Sessions.{
  session_row, has_session_id, create_session, get_session_account, delete_session,
  delete_sessions_for_account, delete_other_sessions, insert_session, sweep_sessions,
}

-- What the handlers do to the sessions while one of them is open.
pub data SessionOp : Type 0 where
  login : ℕ → ℕ → List ℕ → ℕ → ℕ → SessionOp
  logout : Text → SessionOp
  revoke : ℕ → SessionOp
  revoke_others : ℕ → Text → SessionOp

unfoldable pub apply_op : SessionOp → Db → Db
apply_op (login account ttl bytes clock now) db = (create_session account ttl bytes clock now db).0
apply_op (logout id) db = delete_session id db
apply_op (revoke account) db = delete_sessions_for_account account db
apply_op (revoke_others account kept) db = delete_other_sessions account kept db

unfoldable pub apply_ops : List SessionOp → Db → Db
apply_ops [] db = db
apply_ops (op ∷ ops) db = apply_ops ops (apply_op op db)

-- An operation before a time that neither logs a session out nor revokes its account's sessions around it.
abbrev pub Spares : Text → ℕ → ℕ → SessionOp → Type 0
Spares id account until (login a ttl bytes clock now) = now ≤ until
Spares id account until (logout other) = text_eq id other ≡ false
Spares id account until (revoke other) = other ≢ account
Spares id account until (revoke_others other kept) = (other ≢ account) ⊎ (kept ≡ id)

-- The session of an id is an account's until a time, and the account is there.
abbrev IsOpen : Text → Account → ℕ → Db → Type 0
IsOpen id a until db =
    (find (has_session_id id) db.sessions ≡ some (session_row id a.id until))
    × (find (has_id a.id) db.accounts ≡ some a)

insert_session-parts :
    (s : Session) (db : Db)
    → (insert_session s db ≡ ok (record db { sessions = db.sessions ++ s ∷ [] }))
      ⊎ ((e : StoreError) × (insert_session s db ≡ err e))
insert_session-parts s db = elim (Bool-cases (any (has_session_id s.id) db.sessions)) [
  | inl e ↦ inr (unique_violation, rw e)
  | inr e ↦ elim (Bool-cases (any (has_id s.account_id) db.accounts)) [
    | inl d ↦ inl (rw (e, d))
    | inr d ↦ inr (foreign_key, rw (e, d))
  ]
]

login-IsOpen :
    (id : Text) (a : Account) (until account ttl : ℕ) (bytes : List ℕ) (clock now : ℕ) (db : Db)
    → now ≤ until
    → IsOpen id a until db
    → IsOpen id a until (create_session account ttl bytes clock now db).0
unfolding create_session
login-IsOpen id a until account ttl bytes clock now db early (found, present) =
    let swept = sweep_sessions now db in
    let s = session_row (hex_encode bytes) account (clock + ttl) in
    let kept : find (has_session_id id) swept.sessions ≡ some (session_row id a.id until) =
      find-delete_where (has_session_id id) _ db.sessions _ found (ground arith) in
    elim (insert_session-parts s swept) [
      | inl e ↦
          rw (e, create_session)
            (find-append_left (has_session_id id) swept.sessions (s ∷ []) _ kept, present)
      | inr (x, e) ↦ rw (e, create_session) (kept, present)
    ]

others_kept :
    (id kept : Text) (account other : ℕ)
    → (other ≢ account) ⊎ (kept ≡ id)
    → (account == other && not (text_eq id kept)) ≡ false
others_kept id kept account other (inl ne) = ground arith
others_kept id kept account other (inr e) = rw (e, text_eq_refl id) (ground arith)

apply_op-IsOpen :
    (id : Text) (a : Account) (until : ℕ) (op : SessionOp) (db : Db)
    → Spares id a.id until op
    → IsOpen id a until db
    → IsOpen id a until (apply_op op db)
unfolding apply_op delete_session delete_sessions_for_account delete_other_sessions
apply_op-IsOpen id a until (login account ttl bytes clock now) db early h =
    login-IsOpen id a until account ttl bytes clock now db early h
apply_op-IsOpen id a until (logout other) db spared (found, present) = (
  find-delete_where (has_session_id id) (has_session_id other) db.sessions _ found spared,
  present,
)
apply_op-IsOpen id a until (revoke other) db spared (found, present) =
    (find-delete_where (has_session_id id) _ db.sessions _ found (ground arith), present)
apply_op-IsOpen id a until (revoke_others other kept) db spared (found, present) = (
  find-delete_where (has_session_id id) _ db.sessions _ found
      (others_kept id kept a.id other spared),
  present,
)

apply_ops-IsOpen :
    (id : Text) (a : Account) (until : ℕ) (ops : List SessionOp) (db : Db)
    → All (Spares id a.id until) ops
    → IsOpen id a until db
    → IsOpen id a until (apply_ops ops db)
unfolding apply_ops
apply_ops-IsOpen id a until [] db _ h = h
apply_ops-IsOpen id a until (op ∷ ops) db (x, xs) h =
    apply_ops-IsOpen id a until ops (apply_op op db) xs (apply_op-IsOpen id a until op db x h)

open_session :
    (id : Text) (a : Account) (until now : ℕ) (db : Db)
    → now < until
    → IsOpen id a until db
    → get_session_account id now db ≡ ok a
unfolding get_session_account
open_session id a until now db early (found, present) =
    rw
      (
        find-and (has_session_id id) (λ s. ltb now s.expires_at) db.sessions _ found (ground arith),
        get_session_account,
      )
      (rw present refl)

-- A login of an account that is there, with an id that no session has, succeeds. The session then
-- authenticates the account at every time before its expiry, whatever logins, logouts and revocations come
-- between, as long as none of them names the session or revokes the account's sessions but this, and no
-- login happens after the expiry.
pub create_session-IsOpen :
    (a : Account) (ttl : ℕ) (bytes : List ℕ) (clock now : ℕ) (db : Db)
    → find (has_id a.id) db.accounts ≡ some a
    → any (has_session_id (hex_encode bytes)) db.sessions ≡ false
    → let (db', result) = create_session a.id ttl bytes clock now db in
      (result ≡ ok (hex_encode bytes, clock + ttl))
      × ((ops : List SessionOp) (time : ℕ)
          → All (Spares (hex_encode bytes) a.id (clock + ttl)) ops
          → time < clock + ttl
          → get_session_account (hex_encode bytes) time (apply_ops ops db') ≡ ok a)
unfolding create_session
create_session-IsOpen a ttl bytes clock now db present fresh =
    let id = hex_encode bytes in
    let until = clock + ttl in
    let swept = sweep_sessions now db in
    let s = session_row id a.id until in
    let unused : any (has_session_id id) swept.sessions ≡ false =
      any-delete_where (has_session_id id) _ db.sessions fresh in
    let present_row : any (has_id a.id) db.accounts ≡ true =
      any-find (has_id a.id) db.accounts a present in
    let opened : IsOpen id a until (record swept { sessions = swept.sessions ++ s ∷ [] }) =
      (find-append_right (has_session_id id) swept.sessions s unused (text_eq_refl id), present) in
    let inserted : insert_session s swept
        ≡ ok (record swept { sessions = swept.sessions ++ s ∷ [] }) =
      rw (unused, present_row) in
    rw (inserted, create_session)
      (
        refl,
        λ ops time spared early. open_session id a until time _ early (
            apply_ops-IsOpen id a until ops (record swept { sessions = swept.sessions ++ s ∷ [] })
              spared opened),
      )
