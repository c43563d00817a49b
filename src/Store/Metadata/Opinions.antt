-- ===== src/Store/Metadata/Opinions.antt =====
-- internal/store/metadata.go: an account has one opinion of a release.
use moan_subs.Prelude.{
  ℕ, ◌≤◌, ◌≡◌, refl, sym, ap, ◌∙◌, Bool, true, List, [], ◌∷◌, Option, none, some, arith, any, count,
  find, if◌then◌else◌, Bool-cases, inl, inr, ==_refl, count-append,
}
use moan_subs.Prelude.Text.{Text, text_eq_refl}
use moan_subs.Prelude.Result.{ok, err}
use moan_subs.Store.Table.{is_null, update_where, count-update_where}
use moan_subs.Store.Table.Find.{find-delete_self, find-none, any-find, any-find, find-append_right}
use moan_subs.Store.Table.Upsert.{find-update, count-none, count-some}
use moan_subs.Store.Schema.{Db, Metadata, Proposal, not_found, or_not_found}
use moan_subs.Store.Removals.{account_exists}
use moan_subs.Store.Metadata.{
  put_proposal, MetadataProposal, has_content, same_metadata, same_text, same_texts, coalesce,
  by_account, revise, proposal_row, add_proposal, release_exists, record_proposal, proposal_by,
  delete_proposal,
}

-- The row that a proposal makes of the opinion that there was: what it says is what is sent, an id that is
-- not sent stays, and the time moves only when what it says does.
abbrev pub opinion : MetadataProposal → ℕ → ℕ → Option Proposal → Proposal
opinion n now id none = proposal_row n id now
opinion n now id (some p) = record {
  id = p.id;
  release_id = p.release_id;
  proposed_by = p.proposed_by;
  metadata = n.metadata;
  stash_id = if is_null n.stash_id then p.stash_id else n.stash_id;
  endpoint = if is_null n.endpoint then p.endpoint else n.endpoint;
  created_at = if same_metadata p.metadata n.metadata then p.created_at else now;
}

coalesce-if : (a b : Option Text) → coalesce a b ≡ (if is_null a then b else a)
coalesce-if none b = refl
coalesce-if (some s) b = refl

revise-opinion :
    (n : MetadataProposal) (now id : ℕ) (p : Proposal) → revise n now p ≡ opinion n now id (some p)
revise-opinion n now id p =
    rw (coalesce-if n.stash_id p.stash_id, coalesce-if n.endpoint p.endpoint) refl

count-update_same :
    (p : Proposal → Bool) (f : Proposal → Proposal)
    → ((r : Proposal) → p (f r) ≡ p r)
    → (rows : List Proposal) → count p (update_where p f rows) ≡ count p rows
count-update_same p f same rows = count-update_where p p f (λ r _. same r) rows

-- What is stored of an opinion, whether there was one or not.
put-opinion :
    (n : MetadataProposal) (account now : ℕ) (db : Db)
    → n.proposed_by ≡ some account
    → release_exists n.release_id db ≡ true
    → account_exists n.proposed_by db.accounts ≡ true
    → (db' : Db) × (put_proposal n (some account) now db ≡ ok (db', true))
      × (find (by_account n.release_id account) db'.proposals
          ≡ some (
              opinion n now db.next_proposal (find (by_account n.release_id account) db.proposals)))
      × (count (by_account n.release_id account) db.proposals ≤ 1
          → count (by_account n.release_id account) db'.proposals ≡ 1)
put-opinion n account now db by there known =
    let p = by_account n.release_id account in
    let row = proposal_row n db.next_proposal now in
    let own : p row ≡ true = rw (==_refl n.release_id, by, ==_refl account) refl in
    elim (Bool-cases (any p db.proposals)) [
      | inl e ↦
          let (old, found, kept) = find-update p (revise n now) (λ r hit. hit) db.proposals e in
          (
            record db { proposals = update_where p (revise n now) db.proposals },
            rw e refl,
            kept
                ∙ ap (λ (r : Proposal). some r) (revise-opinion n now db.next_proposal old)
                ∙ ap (λ (o : Option Proposal). some (opinion n now db.next_proposal o)) (sym found),
            λ few. omega (
              arith,
              few,
              count-update_same p (revise n now) (λ r. refl) db.proposals,
              count-some p db.proposals e,
            ),
          )
      | inr e ↦ (
        add_proposal n now db,
        rw (e, there, known) refl,
        find-append_right p db.proposals row e own
            ∙ ap (λ (o : Option Proposal). some (opinion n now db.next_proposal o))
                (sym (find-none p db.proposals e)),
        λ few. count-append p db.proposals (row ∷ []) ∙ rw (own, count-none p db.proposals e) refl,
      )
    ]

same_text_refl : (s : Option Text) → same_text s s ≡ true
same_text_refl none = refl
same_text_refl (some s) = text_eq_refl s

same_texts_refl : (ss : List Text) → same_texts ss ss ≡ true
same_texts_refl [] = refl
same_texts_refl (s ∷ ss) = rw (text_eq_refl s) (same_texts_refl ss)

same_metadata_refl : (m : Metadata) → same_metadata m m ≡ true
unfolding same_metadata
same_metadata_refl m =
    rw (same_text_refl m.title, same_text_refl m.release_date, same_text_refl m.studio)
      (same_texts_refl m.performers)

coalesce_self : (a : Option Text) → coalesce a a ≡ a
coalesce_self none = refl
coalesce_self (some s) = refl

coalesce_again : (a b : Option Text) → coalesce a (coalesce a b) ≡ coalesce a b
coalesce_again none b = refl
coalesce_again (some s) b = refl

-- The same proposal does not revise itself, at any time.
opinion_again :
    (n : MetadataProposal) (now later id : ℕ) (o : Option Proposal)
    → revise n later (opinion n now id o) ≡ opinion n now id o
opinion_again n now later id none =
    rw (same_metadata_refl n.metadata, coalesce_self n.stash_id, coalesce_self n.endpoint) refl
opinion_again n now later id (some p) =
    ap (revise n later) (sym (revise-opinion n now id p))
    ∙ rw
        (
          same_metadata_refl n.metadata,
          coalesce_again n.stash_id p.stash_id,
          coalesce_again n.endpoint p.endpoint,
        )
        (revise-opinion n now id p)

-- A proposal with content, by an account that exists for a release that exists, is recorded: it is then the
-- account's only opinion of the release, if there was at most one, made of the one before as `opinion` says
-- or new. Sending it again later leaves the opinion as it is, its time included; withdrawing it leaves none.
pub record_proposal-opinion :
    (n : MetadataProposal) (account now later : ℕ) (db : Db)
    → n.proposed_by ≡ some account
    → has_content n.metadata ≡ true
    → release_exists n.release_id db ≡ true
    → account_exists n.proposed_by db.accounts ≡ true
    → (db' : Db) × (record_proposal n now db ≡ ok (db', true))
      × (find (by_account n.release_id account) db'.proposals
          ≡ some (
              opinion n now db.next_proposal (find (by_account n.release_id account) db.proposals)))
      × (count (by_account n.release_id account) db.proposals ≤ 1
          → count (by_account n.release_id account) db'.proposals ≡ 1)
      × ((db'' : Db) × (record_proposal n later db' ≡ ok (db'', true))
          × (find (by_account n.release_id account) db''.proposals
              ≡ find (by_account n.release_id account) db'.proposals))
      × (proposal_by n.release_id account (delete_proposal n.release_id account db').0
          ≡ err not_found)
unfolding record_proposal delete_proposal proposal_by
record_proposal-opinion n account now later db by full there known =
    let (db', e, found, single) = put-opinion n account now db by there known in
    let p = by_account n.release_id account in
    let (r, found_r, kept) =
      find-update p (revise n later) (λ s hit. hit) db'.proposals
        (any-find p db'.proposals _ found) in
    let old = opinion n now db.next_proposal (find p db.proposals) in
    let same_row : r ≡ old = cc (found_r, found) in
    (
      db',
      rw full (ap (λ (o : Option ℕ). put_proposal n o now db) by ∙ e),
      found,
      single,
      (
        record db' { proposals = update_where p (revise n later) db'.proposals },
        rw full (
            ap (λ (o : Option ℕ). put_proposal n o later db') by
            ∙ rw (any-find p db'.proposals _ found) refl),
        kept
            ∙ ap (λ (s : Proposal). some (revise n later s)) same_row
            ∙ ap (λ (s : Proposal). some s)
                (opinion_again n now later db.next_proposal (find p db.proposals))
            ∙ sym found,
      ),
      ap or_not_found (find-delete_self (by_account n.release_id account) db'.proposals),
    )
