-- ===== src/Store/Metadata.antt =====
-- internal/store/metadata.go: what accounts say of a release, and the pins of moderators. The name tokens
-- that writeDerived stores beside the metadata are not part of the rows here.
pub mod Derive
pub mod Weighing
pub mod Weights
pub mod Ranking
pub mod Picking
pub mod Blocks
pub mod Pins
pub mod Confirming
pub mod Opinions
pub mod AutoConfirm
pub mod Claims
pub mod AutoPins
pub mod Keeping
pub mod Regroup
pub mod Framing
pub mod Unpinning
use moan_subs.Prelude.{
  ℕ, suc, Bool, true, false, not, ◌&&◌, ◌||◌, List, [], ◌∷◌, ◌++◌, Option, none, some, ltb, leb,
  ◌==◌, if◌then◌else◌, any, all, find, keep, map,
}
use moan_subs.Prelude.Result.{Result, ok, err, guard, ◌>>=◌, ◌>>◌}
use moan_subs.Prelude.Text.{Text, text_eq}
use moan_subs.Prelude.Unicode.{trim_space}
use moan_subs.Store.Table.{update_where, delete_where, is_id, is_null}
use moan_subs.Store.Table.Upsert.{upsert_where}
use moan_subs.Store.Releases.{is_release}
use moan_subs.Store.Removals.{account_exists}
use moan_subs.Store.Schema.{
  Db, Release, Metadata, Proposal, Confirmation, StoreError, not_found, foreign_key, or_not_found,
}

-- nonEmpty, with the text that it is asked of.
abbrev pub or_empty : Option Text → Text
or_empty none = []
or_empty (some s) = s

abbrev pub is_empty : Text → Bool
is_empty [] = true
is_empty (c ∷ s) = false

unfoldable pub non_empty : Option Text → Bool
non_empty s = not (is_empty (trim_space (or_empty s)))

abbrev pub any_item : List Text → Bool
any_item [] = false
any_item (x ∷ xs) = true

-- MetadataProposal.
pub record MetadataProposal : Type 0 where
  pub release_id : ℕ
  pub proposed_by : Option ℕ
  pub metadata : Metadata
  pub stash_id : Option Text
  pub endpoint : Option Text

-- MetadataProposal.hasContent.
unfoldable pub has_content : Metadata → Bool
has_content m =
    non_empty m.title || non_empty m.release_date || non_empty m.studio || any_item m.performers

-- IS DISTINCT FROM.
abbrev pub same_text : Option Text → Option Text → Bool
same_text none none = true
same_text none (some t) = false
same_text (some s) none = false
same_text (some s) (some t) = text_eq s t

abbrev pub same_texts : List Text → List Text → Bool
same_texts [] [] = true
same_texts [] (t ∷ ts) = false
same_texts (s ∷ ss) [] = false
same_texts (s ∷ ss) (t ∷ ts) = text_eq s t && same_texts ss ts

unfoldable pub same_metadata : Metadata → Metadata → Bool
same_metadata m n =
    same_text m.title n.title
    && same_text m.release_date n.release_date
    && same_text m.studio n.studio
    && same_texts m.performers n.performers

abbrev pub coalesce : Option Text → Option Text → Option Text
coalesce none old = old
coalesce (some s) old = some s

abbrev pub by_account : ℕ → ℕ → Proposal → Bool
by_account release account p = p.release_id == release && is_id account p.proposed_by

-- DO UPDATE SET …
abbrev pub revise : MetadataProposal → ℕ → Proposal → Proposal
revise n now p = record p {
  metadata = n.metadata;
  stash_id = coalesce n.stash_id p.stash_id;
  endpoint = coalesce n.endpoint p.endpoint;
  created_at = if same_metadata p.metadata n.metadata then p.created_at else now;
}

abbrev pub proposal_row : MetadataProposal → ℕ → ℕ → Proposal
proposal_row n id now = record {
  id = id;
  release_id = n.release_id;
  proposed_by = n.proposed_by;
  metadata = n.metadata;
  stash_id = n.stash_id;
  endpoint = n.endpoint;
  created_at = now;
}

abbrev pub add_proposal : MetadataProposal → ℕ → Db → Db
add_proposal n now db = record db {
  proposals = db.proposals ++ proposal_row n db.next_proposal now ∷ [];
  next_proposal = suc db.next_proposal;
}

abbrev pub release_exists : ℕ → Db → Bool
release_exists release db = any (is_release release) db.releases

abbrev pub insert_proposal : MetadataProposal → ℕ → Db → Result StoreError (Db × Bool)
insert_proposal n now db = do
  guard (release_exists n.release_id db && account_exists n.proposed_by db.accounts) foreign_key
  ok (add_proposal n now db, true)

-- INSERT … ON CONFLICT (release_id, proposed_by) WHERE proposed_by IS NOT NULL DO UPDATE.
abbrev pub put_proposal : MetadataProposal → Option ℕ → ℕ → Db → Result StoreError (Db × Bool)
put_proposal n none now db = insert_proposal n now db
put_proposal n (some account) now db =
    let p = by_account n.release_id account in
    if any p db.proposals
    then ok (record db { proposals = update_where p (revise n now) db.proposals }, true)
    else insert_proposal n now db

-- RecordProposal.
unfoldable pub record_proposal : MetadataProposal → ℕ → Db → Result StoreError (Db × Bool)
record_proposal n now db =
    if not (has_content n.metadata) then ok (db, false) else put_proposal n n.proposed_by now db

-- ProposalBy.
unfoldable pub proposal_by : ℕ → ℕ → Db → Result StoreError Proposal
proposal_by release account db = or_not_found (find (by_account release account) db.proposals)

-- DeleteProposal.
unfoldable pub delete_proposal : ℕ → ℕ → Db → Db × Bool
delete_proposal release account db =
    let p = by_account release account in
    (record db { proposals = delete_where p db.proposals }, any p db.proposals)

abbrev pub of_release : ℕ → Confirmation → Bool
of_release release c = c.release_id == release

-- Confirmed, and ConfirmedReleaseIDs as a test of one id.
unfoldable pub confirmed : ℕ → Db → Result StoreError Confirmation
confirmed release db = or_not_found (find (of_release release) db.confirmations)

unfoldable pub confirmed_release_ids : List ℕ → Db → List ℕ
confirmed_release_ids ids db =
    map (λ (c : Confirmation). c.release_id)
      (keep (λ c. any (λ i. i == c.release_id) ids) db.confirmations)

abbrev pub block_autoconfirm : Bool → ℕ → Db → Db
block_autoconfirm b release db = record db {
  releases =
      update_where (is_release release) (λ r. record r { autoconfirm_blocked = b }) db.releases;
}

abbrev pub confirmation_row : ℕ → Option ℕ → Metadata → ℕ → Confirmation
confirmation_row release by m now = record {
  release_id = release;
  confirmed_by = by;
  metadata = m;
  confirmed_at = now;
}

abbrev pub repin : Option ℕ → Metadata → ℕ → Confirmation → Confirmation
repin by m now c = record c { confirmed_by = by; metadata = m; confirmed_at = now }

abbrev pub put_confirmation : ℕ → Option ℕ → Metadata → ℕ → Db → Db
put_confirmation release by m now db = record db {
  confirmations =
      upsert_where (of_release release) (repin by m now) (confirmation_row release by m now)
        db.confirmations;
}

-- ConfirmMetadata; only a person lifts the block.
unfoldable pub confirm_metadata : ℕ → Option ℕ → Metadata → ℕ → Db → Result StoreError Db
confirm_metadata release by m now db = do
  guard (release_exists release db && account_exists by db.accounts) foreign_key
  let pinned = put_confirmation release by m now db
  ok (if is_null by then pinned else block_autoconfirm false release pinned)

-- UnconfirmMetadata.
unfoldable pub unconfirm_metadata : ℕ → Db → Db
unconfirm_metadata release db =
    block_autoconfirm true release
      (record db { confirmations = delete_where (of_release release) db.confirmations })

-- PurgeProposals.
unfoldable pub purge_proposals : List ℕ → Db → Db
purge_proposals ids db = record db {
  proposals = delete_where (λ p. any (λ i. i == p.release_id) ids) db.proposals;
  confirmations = delete_where (λ c. any (λ i. i == c.release_id) ids) db.confirmations;
}
