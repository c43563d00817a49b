-- ===== src/Store/Removals.antt =====
-- internal/store/removal.go: requests to remove a track, and the queue of those that nobody has handled.
pub mod Queue
use moan_subs.Prelude.{
  ℕ, suc, Bool, true, false, not, ◌&&◌, ◌||◌, List, [], ◌∷◌, ◌++◌, Option, none, some, ltb, leb,
  ◌==◌, if◌then◌else◌, any, find, keep, length, map,
}
use moan_subs.Prelude.Result.{Result, ok, err, guard, ◌>>=◌, ◌>>◌}
use moan_subs.Prelude.Text.{Text, codes, text_eq}
use moan_subs.Store.Table.{update_where, is_null}
use moan_subs.Store.Table.Order.{sort_by}
use moan_subs.Store.Schema.{
  Db, Account, Track, RemovalRequest, StoreError, not_found, foreign_key, check_violation,
  or_not_found,
}
use moan_subs.Store.Accounts.{has_id}

-- The constraints of removal_requests: the reasons, the lengths, and the references.
abbrev pub removal_reasons : List Text
removal_reasons =
    codes "copyright"
    ∷ codes "depicts_me"
    ∷ codes "illegal"
    ∷ codes "wrong_or_harmful"
    ∷ codes "other"
    ∷ []

abbrev pub within : ℕ → Option Text → Bool
within limit none = true
within limit (some t) = leb (length t) limit

unfoldable pub removal_allowed : Text → Option Text → Option Text → Bool
removal_allowed reason remark contact =
    any (text_eq reason) removal_reasons && within 1000 remark && within 200 contact

abbrev pub account_exists : Option ℕ → List Account → Bool
account_exists none accounts = true
account_exists (some id) accounts = any (has_id id) accounts

unfoldable pub removal_references : ℕ → Option ℕ → Db → Bool
removal_references track account db =
    any (λ t. t.id == track) db.tracks && account_exists account db.accounts

abbrev pub removal_row : ℕ → ℕ → Option ℕ → Text → Option Text → Option Text → ℕ → RemovalRequest
removal_row id track account reason remark contact now = record {
  id = id;
  track_id = track;
  account_id = account;
  reason = reason;
  note = remark;
  contact = contact;
  created_at = now;
  handled_at = none;
  handled_by = none;
  handled_action = none;
}

-- CreateRemovalRequest. A missing track or account is ErrNotFound.
unfoldable pub create_removal_request :
    ℕ → Option ℕ → Text → Option Text → Option Text → ℕ → Db → Result StoreError (Db × ℕ)
create_removal_request track account reason remark contact now db = do
  guard (removal_allowed reason remark contact) check_violation
  guard (removal_references track account db) not_found
  ok (
    record db {
      removals =
          db.removals ++ removal_row db.next_removal track account reason remark contact now ∷ [];
      next_removal = suc db.next_removal;
    },
    db.next_removal,
  )

abbrev pub is_unhandled : RemovalRequest → Bool
is_unhandled r = is_null r.handled_at

abbrev pub filed_before : RemovalRequest → RemovalRequest → Bool
filed_before r s = leb r.created_at s.created_at

-- The name that a LEFT JOIN finds.
abbrev pub name_of : Option Account → Option Text
name_of none = none
name_of (some a) = some a.name

abbrev pub filer_name : List Account → RemovalRequest → Option Text
filer_name accounts r = elim r.account_id [
  | none ↦ none
  | some id ↦ name_of (find (has_id id) accounts)
]

-- UnhandledRemovalRequests: the requests, oldest first, each with its filer's name.
unfoldable pub unhandled_removal_requests : Db → List (RemovalRequest × Option Text)
unhandled_removal_requests db =
    map (λ r. (r, filer_name db.accounts r)) (sort_by filed_before (keep is_unhandled db.removals))

-- GetRemovalRequest.
unfoldable pub get_removal_request : ℕ → Db → Result StoreError RemovalRequest
get_removal_request id db = or_not_found (find (λ r. r.id == id) db.removals)

abbrev pub is_open : ℕ → RemovalRequest → Bool
is_open id r = r.id == id && is_unhandled r

abbrev pub handle_row : ℕ → Text → ℕ → RemovalRequest → RemovalRequest
handle_row by action now r = record r {
  handled_at = some now;
  handled_by = some by;
  handled_action = some action;
}

-- MarkRemovalRequestHandled.
unfoldable pub mark_removal_request_handled : ℕ → ℕ → Text → ℕ → Db → Result StoreError Db
mark_removal_request_handled id by action now db = do
  guard (any (is_open id) db.removals) not_found
  guard (any (has_id by) db.accounts) foreign_key
  ok (record db { removals = update_where (is_open id) (handle_row by action now) db.removals })
