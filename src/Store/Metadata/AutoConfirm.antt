-- ===== src/Store/Metadata/AutoConfirm.antt =====
-- internal/store/autoconfirm.go: a pin that no moderator has clicked.
use moan_subs.Prelude.{
  ℕ, ◌-◌, ◌*◌, ◌/◌, Bool, false, not, ◌&&◌, ◌||◌, List, [], ◌∷◌, Option, none, some, ltb, leb, ◌==◌,
  if◌then◌else◌, any, all, find, keep,
}
use moan_subs.Prelude.Result.{Result, ok, ◌>>=◌}
use moan_subs.Prelude.Text.{Text, text_eq, codes}
use moan_subs.Store.Table.{is_id, is_null}
use moan_subs.Store.Table.Order.{sort_by}
use moan_subs.Store.Schema.{Db, Account, Release, StashId, Proposal, StoreError, or_not_found}
use moan_subs.Store.Releases.{is_release}
use moan_subs.Store.Metadata.{or_empty, is_empty, of_release, confirm_metadata}

-- AutoConfirmCandidate, with its reason as a constructor.
pub data Outcome : Type 0 where
  eligible no_endpoint unpinned no_title already_pinned no_trusted_id contradicted : Outcome

abbrev pub tolerance_pct : ℕ
tolerance_pct = 5

-- The endpoints that may pin; a single "*" stands for all of them.
abbrev pub is_any_endpoint : List Text → Bool
is_any_endpoint [] = false
is_any_endpoint (e ∷ []) = text_eq e (codes "*")
is_any_endpoint (e ∷ f ∷ es) = false

abbrev pub accepts_endpoint : List Text → Text → Bool
accepts_endpoint endpoints e = is_any_endpoint endpoints || any (λ f. text_eq f e) endpoints

-- The WHERE of the query, with its JOIN on accounts.
abbrev pub is_trusted : Option ℕ → Account → Bool
is_trusted proposer a = is_id a.id proposer && a.trusted && not a.disabled

unfoldable pub may_pin : ℕ → List Text → Db → Proposal → Bool
may_pin release endpoints db p =
    p.release_id == release
    && any (is_trusted p.proposed_by) db.accounts
    && not (is_null p.stash_id)
    && not (is_null p.endpoint)
    && accepts_endpoint endpoints (or_empty p.endpoint)

abbrev pub later_claim : Proposal → Proposal → Bool
later_claim p q = leb q.created_at p.created_at

abbrev pub first_of : {A : Type 0} → List A → Option A
first_of [] = none
first_of (x ∷ xs) = some x

unfoldable pub pinning_proposal : ℕ → List Text → Db → Option Proposal
pinning_proposal release endpoints db =
    first_of (sort_by later_claim (keep (may_pin release endpoints db) db.proposals))

-- stashIDDurationConsistent.
abbrev pub distance : ℕ → ℕ → ℕ
distance a b = if ltb a b then b - a else a - b

abbrev pub carries_id : Text → Text → ℕ → StashId → Bool
carries_id endpoint stash_id release i =
    text_eq i.endpoint endpoint && text_eq i.stash_id stash_id && i.release_id == release

abbrev pub bears_id : ℕ → Text → Text → Db → Release → Bool
bears_id release endpoint stash_id db r =
    not (r.id == release)
    && is_null r.withdrawn_at
    && any (carries_id endpoint stash_id r.id) db.stash_ids

unfoldable pub stash_id_duration_consistent : ℕ → Text → Text → ℕ → Db → Bool
stash_id_duration_consistent release endpoint stash_id duration_ms db =
    leb 1 duration_ms
    && all (λ r. leb (distance duration_ms r.duration_ms) (duration_ms * tolerance_pct / 100))
        (keep (bears_id release endpoint stash_id db) db.releases)

abbrev pub refused : Outcome → Db → Result StoreError (Db × Outcome)
refused o db = ok (db, o)

abbrev pub pin_if_consistent :
    Release → Option Proposal → ℕ → ℕ → Db → Result StoreError (Db × Outcome)
pin_if_consistent r none release now db = refused no_trusted_id db
pin_if_consistent r (some p) release now db =
    if not (
      stash_id_duration_consistent release (or_empty p.endpoint) (or_empty p.stash_id) r.duration_ms
        db)
    then refused contradicted db
    else (confirm_metadata release none r.metadata now db >>= λ pinned. ok (pinned, eligible))

-- AutoConfirmIfEligible.
unfoldable pub auto_confirm_if_eligible : ℕ → List Text → ℕ → Db → Result StoreError (Db × Outcome)
auto_confirm_if_eligible release [] now db = refused no_endpoint db
auto_confirm_if_eligible release (e ∷ es) now db = do
  r ← or_not_found (find (is_release release) db.releases)
  if r.autoconfirm_blocked
      then refused unpinned db
      else if is_empty (or_empty r.metadata.title)
      then refused no_title db
      else if not (is_null (find (of_release release) db.confirmations))
      then refused already_pinned db
      else pin_if_consistent r (pinning_proposal release (e ∷ es) db) release now db
