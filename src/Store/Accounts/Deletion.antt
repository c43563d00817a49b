-- ===== src/Store/Accounts/Deletion.antt =====
-- internal/store/account.go: DeleteAccount, with the rules of internal/store/migrations/0028_account_deletion.sql,
-- and of 0016_metadata_proposals.sql and 0022_stashbox.sql for the tables that these create.
use moan_subs.Prelude.{
  ℕ, Bool, not, ◌&&◌, List, [], ◌∷◌, Option, none, some, leb, ◌==◌, if◌then◌else◌, count, any, find,
  map, keep,
}
use moan_subs.Prelude.Result.{Result, ok, err, guard, ◌>>◌}
use moan_subs.Store.Table.{update_where, delete_where, is_id}
use moan_subs.Store.Schema.{
  Db, Account, Track, Vote, StashId, RemovalRequest, Proposal, Confirmation, StashboxKey,
  Authorship, shared, credited, uncredited, admin, StoreError, not_found, last_admin,
}
use moan_subs.Store.Votes.{recompute_vote_counts}
use moan_subs.Store.Accounts.{has_id, is_role}

-- CASE WHEN authorship = 'credited' THEN 'uncredited' ELSE authorship END.
abbrev pub without_credit : Authorship → Authorship
without_credit credited = uncredited
without_credit uncredited = uncredited
without_credit shared = shared

abbrev pub unlink_track : Track → Track
unlink_track t = record t { uploader_id = none; authorship = without_credit t.authorship }

-- The tracks that the account has voted on, by their ids in order.
abbrev pub insert_id : ℕ → List ℕ → List ℕ
insert_id i [] = i ∷ []
insert_id i (j ∷ ids) = if leb i j then i ∷ j ∷ ids else j ∷ insert_id i ids

abbrev pub sort_ids : List ℕ → List ℕ
sort_ids [] = []
sort_ids (i ∷ ids) = insert_id i (sort_ids ids)

abbrev pub has_voted : ℕ → List Vote → Track → Bool
has_voted account votes t = any (λ v. v.track_id == t.id && v.account_id == account) votes

unfoldable pub voted_tracks : ℕ → Db → List ℕ
voted_tracks account db = sort_ids (map (λ t. t.id) (keep (has_voted account db.votes) db.tracks))

unfoldable pub recompute_each : List ℕ → Db → Db
recompute_each [] db = db
recompute_each (t ∷ tracks) db = recompute_each tracks (recompute_vote_counts t db).0

-- ON DELETE SET NULL.
abbrev pub unless_id : ℕ → Option ℕ → Option ℕ
unless_id n none = none
unless_id n (some m) = if m == n then none else some m

abbrev pub forget_inviter : ℕ → Account → Account
forget_inviter account a = record a { invited_by = unless_id account a.invited_by }

abbrev pub forget_uploader : ℕ → Track → Track
forget_uploader account t = record t { uploader_id = unless_id account t.uploader_id }

abbrev pub forget_adder : ℕ → StashId → StashId
forget_adder account s = record s { added_by = unless_id account s.added_by }

abbrev pub forget_filer : ℕ → RemovalRequest → RemovalRequest
forget_filer account r = record r {
  account_id = unless_id account r.account_id;
  handled_by = unless_id account r.handled_by;
}

abbrev pub forget_proposer : ℕ → Proposal → Proposal
forget_proposer account p = record p { proposed_by = unless_id account p.proposed_by }

abbrev pub forget_confirmer : ℕ → Confirmation → Confirmation
forget_confirmer account c = record c { confirmed_by = unless_id account c.confirmed_by }

-- ON DELETE CASCADE of account_stashbox_keys.
abbrev pub drop_stashbox_keys : ℕ → List StashboxKey → List StashboxKey
drop_stashbox_keys account keys = delete_where (λ k. k.account_id == account) keys

-- DELETE FROM accounts, with what the references to the row do.
unfoldable pub delete_account_row : ℕ → Db → Db
delete_account_row account db = record db {
  accounts = map (forget_inviter account) (delete_where (has_id account) db.accounts);
  tracks = map (forget_uploader account) db.tracks;
  stash_ids = map (forget_adder account) db.stash_ids;
  removals = map (forget_filer account) db.removals;
  proposals = map (forget_proposer account) db.proposals;
  confirmations = map (forget_confirmer account) db.confirmations;
  sessions = delete_where (λ s. s.account_id == account) db.sessions;
  invites = delete_where (λ i. i.created_by == account) db.invites;
  fit_reports = delete_where (λ f. f.account_id == account) db.fit_reports;
  stashbox_keys = drop_stashbox_keys account db.stashbox_keys;
}

-- What DeleteAccount does once it is not refused.
abbrev pub unlink_tracks : ℕ → Db → Db
unlink_tracks account db = record db {
  tracks = update_where (λ t. is_id account t.uploader_id) unlink_track db.tracks;
}

abbrev pub delete_votes : ℕ → Db → Db
delete_votes account db = record db { votes = delete_where (λ v. v.account_id == account) db.votes }

unfoldable pub erase_account : ℕ → Db → Db
erase_account account db =
    delete_account_row account
      (recompute_each (voted_tracks account db) (delete_votes account (unlink_tracks account db)))

-- DeleteAccount.
unfoldable pub delete_account : ℕ → Db → Result StoreError Db
delete_account account db = elim (find (has_id account) db.accounts) [
  | none ↦ err not_found
  | some a ↦ do
    guard (not (is_role admin a && leb (count (is_role admin) db.accounts) 1)) last_admin
    ok (erase_account account db)
]
