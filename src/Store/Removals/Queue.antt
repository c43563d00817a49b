-- ===== src/Store/Removals/Queue.antt =====
-- internal/store/removal.go: a request from its filing to its handling.
use moan_subs.Prelude.{
  ℕ, suc, ◌<◌, ◌≡◌, refl, ap, ◌∙◌, Bool, true, false, List, [], ◌∷◌, ◌++◌, Option, some, arith,
  ◌==◌, count, any, find, All, Bool-cases, inl, inr, ==_refl, length, length-map, count-append,
}
use moan_subs.Prelude.Result.{ok, err}
use moan_subs.Prelude.Text.{Text}
use moan_subs.Store.Table.{update_where}
use moan_subs.Store.Table.Order.{length-sorted}
use moan_subs.Store.Table.Keep.{any-append}
use moan_subs.Store.Table.Find.{find-append_right}
use moan_subs.Store.Schema.{Db, RemovalRequest, not_found}
use moan_subs.Store.Accounts.{has_id}
use moan_subs.Store.Removals.{
  removal_allowed, removal_references, removal_row, create_removal_request, is_unhandled,
  filed_before, filer_name, unhandled_removal_requests, get_removal_request, is_open, handle_row,
  mark_removal_request_handled,
}

update_where-append {ℓ} :
    {A : Type ℓ} (p : A → Bool) (f : A → A) (rows : List A) (r : A)
    → any p rows ≡ false
    → p r ≡ true
    → update_where p f (rows ++ r ∷ []) ≡ rows ++ f r ∷ []
update_where-append p f [] r h e = rw e
update_where-append p f (s ∷ rows) r h e = elim (Bool-cases (p s)) [
  | inl d ↦ absurd (ground arith)
  | inr d ↦ rw (d, update_where-append p f rows r (rw d at h) e)
]

abbrev has_request_id : ℕ → RemovalRequest → Bool
has_request_id id r = r.id == id

-- The ids that were given out are below the next one.
abbrev pub IsNumbered : Db → Type 0
IsNumbered db = All (λ r. r.id < db.next_removal) db.removals

fresh_id :
    (next : ℕ) (rows : List RemovalRequest)
    → All (λ r. r.id < next) rows
    → (any (has_request_id next) rows ≡ false) × (any (is_open next) rows ≡ false)
fresh_id next [] _ = (refl, refl)
fresh_id next (r ∷ rows) (h, hs) =
    let other : has_request_id next r ≡ false = ground arith in rw other (fresh_id next rows hs)

queue_length : (db : Db) → length (unhandled_removal_requests db) ≡ count is_unhandled db.removals
unfolding unhandled_removal_requests
queue_length db =
    length-map (λ r. (r, filer_name db.accounts r)) _
    ∙ length-sorted filed_before is_unhandled db.removals

find-append_fresh :
    (id : ℕ) (rows : List RemovalRequest) (r : RemovalRequest)
    → any (has_request_id id) rows ≡ false
    → r.id ≡ id
    → find (has_request_id id) (rows ++ r ∷ []) ≡ some r
find-append_fresh id rows r fresh e =
    find-append_right (has_request_id id) rows r fresh (rw e (==_refl id))

all_closed :
    (id : ℕ) (rows : List RemovalRequest) (r : RemovalRequest)
    → any (is_open id) rows ≡ false
    → is_open id r ≡ false
    → any (is_open id) (rows ++ r ∷ []) ≡ false
all_closed id rows r h e = ground (arith, any-append (is_open id) rows (r ∷ []))

-- A request that meets the constraints on an existing track is accepted, under the next id, and makes the
-- queue one longer. An existing moderator can then handle it, which takes it off the queue and records who
-- did what and when; nobody can handle it again.
pub create_removal_request-handled :
    (track : ℕ) (account : Option ℕ) (reason : Text) (remark contact : Option Text) (now : ℕ)
    (by : ℕ) (action : Text) (later : ℕ) (db : Db)
    → IsNumbered db
    → removal_allowed reason remark contact ≡ true
    → removal_references track account db ≡ true
    → any (has_id by) db.accounts ≡ true
    → let id = db.next_removal in
      let row = removal_row id track account reason remark contact now in
      (filed : Db) × (handled : Db) × (create_removal_request track account reason remark contact
          now db
        ≡ ok (filed, id))
      × (get_removal_request id filed ≡ ok row)
      × (length (unhandled_removal_requests filed) ≡ suc (length (unhandled_removal_requests db)))
      × (mark_removal_request_handled id by action later filed ≡ ok handled)
      × (get_removal_request id handled ≡ ok (handle_row by action later row))
      × (length (unhandled_removal_requests handled) ≡ length (unhandled_removal_requests db))
      × ((other : ℕ) (verdict : Text) (time : ℕ)
          → mark_removal_request_handled id other verdict time handled ≡ err not_found)
unfolding create_removal_request get_removal_request mark_removal_request_handled
create_removal_request-handled track account reason remark contact now by action later db numbered
      allowed present moderates =
    let id = db.next_removal in
    let row = removal_row id track account reason remark contact now in
    let row' = handle_row by action later row in
    let rows = db.removals in
    let filed : Db = record db { removals = rows ++ row ∷ []; next_removal = suc id } in
    let handled : Db = record filed { removals = rows ++ row' ∷ [] } in
    let (fresh, closed) = fresh_id id rows numbered in
    let opens : is_open id row ≡ true = ground (arith, ==_refl id) in
    let opened : any (is_open id) filed.removals ≡ true =
      ground (arith, any-append (is_open id) rows (row ∷ [])) in
    (
      filed,
      handled,
      rw (allowed, present),
      rw (find-append_fresh id rows row fresh refl),
      queue_length filed
          ∙ ground (arith, queue_length db, count-append is_unhandled rows (row ∷ [])),
      rw (opened, moderates)
          (ap (λ (r : List RemovalRequest). ok (record filed { removals = r }))
            (update_where-append (is_open id) (handle_row by action later) rows row closed opens)),
      rw (find-append_fresh id rows row' fresh refl),
      queue_length handled
          ∙ ground (arith, queue_length db, count-append is_unhandled rows (row' ∷ [])),
      λ other verdict time. rw (all_closed id rows row' closed (ground arith)),
    )
