-- ===== src/Examples/Scenes.antt =====
-- The theorems on what releases are called at a small database: account 1 is trusted, and release 1 has a
-- confirmed title.
use moan_subs.Prelude.{
  ℕ, ◌≤◌, ◌≡◌, ◌≢◌, ◌⊎◌, refl, inl, inr, Bool, true, false, List, [], ◌∷◌, Option, none, some,
  arith, find, any, count, Bool-cases, ==_iff, ◌==◌,
}
use moan_subs.Prelude.Result.{ok, err}
use moan_subs.Prelude.Text.{Text, codes}
use moan_subs.Store.Schema.{Db, Release, Metadata, no_metadata, Proposal, Confirmation, not_found}
use moan_subs.Store.Releases.{is_release}
use moan_subs.Store.Table.Upsert.{upsert_where}
use moan_subs.Store.Metadata.{
  MetadataProposal, non_empty, has_content, by_account, record_proposal, proposal_by,
  delete_proposal, of_release, unconfirm_metadata, confirmation_row,
}
use moan_subs.Store.Metadata.Derive.{
  Candidate, gather, best, better, pick_string, derive_after_proposal, derive_work, derive_each,
  derive_metadata, derivation_pool, write_derived, work_release_ids,
}
use moan_subs.Store.Metadata.Ranking.{IsVisit}
use moan_subs.Store.Metadata.Picking.{IsPicked, pick_string-IsPicked}
use moan_subs.Store.Metadata.Opinions.{opinion, record_proposal-opinion}
use moan_subs.Store.Metadata.Pins.{IsPinned}
use moan_subs.Store.Metadata.AutoConfirm.{auto_confirm_if_eligible}
use moan_subs.Store.Metadata.AutoPins.{Attempt, auto_confirm_if_eligible_lem}
use moan_subs.Store.Metadata.Regroup.{link_and_derive, unlink_and_derive}
use moan_subs.Store.Works.{link_releases, link_works, unlink_release, unlink_works}
use moan_subs.Store.StashIds.{add_release_stash_ids, stash_references}
use moan_subs.Store.Removals.{account_exists}
use moan_subs.Store.Releases.Lookup.{get_release_by_id, get_release_by_oshash_any}
use moan_subs.Api.Naming.{
  proposed, maybe_auto_confirm, handle_mod_release_confirm, handle_mod_release_unconfirm,
  handle_release_propose_metadata, handle_mod_release_link, handle_mod_release_unlink,
}
use moan_subs.Api.Naming.Contributing.{MetadataEntry, contribute_one, resolve_metadata_release}
use moan_subs.Api.Naming.Unpins.{serve_all-unpinned}
use moan_subs.Api.Naming.History.{serve_all-IsPinned, serve_all-confirmed}
use moan_subs.Api.Naming.Requests.{
  Request, propose, contribute, link, unlink, unconfirm, serve, serve_all,
}
use moan_subs.Examples.Data.{sample, film, member}

abbrev titled : Text → Metadata
titled t = record no_metadata { title = some t }

abbrev says_title : ℕ → ℕ → Text → Proposal
says_title release account t = record {
  id = release;
  release_id = release;
  proposed_by = some account;
  metadata = titled t;
  stash_id = none;
  endpoint = none;
  created_at = 5;
}

abbrev pool : List Proposal
pool =
    says_title 1 1 (codes "Wrong")
    ∷ says_title 2 1 (codes "Wrong")
    ∷ says_title 2 2 (codes "Right")
    ∷ []

abbrev title_of : Metadata → Option Text
title_of m = m.title

-- One account that proposes a title for two releases of a work counts twice against another one.
outvoted : pick_string (λ cs. cs) pool title_of ≡ some (codes "Wrong")
unfolding pick_string gather best better upsert_where non_empty moan_subs.Prelude.Unicode.trim_space
    moan_subs.Prelude.Unicode.trim_left moan_subs.Prelude.Unicode.trim_right
    moan_subs.Prelude.Unicode.is_space
outvoted = refl

-- A loop that comes to the second entry first.
abbrev swapped : List Candidate → List Candidate
swapped [] = []
swapped (c ∷ []) = c ∷ []
swapped (c ∷ d ∷ cs) = d ∷ c ∷ cs

swapped-IsVisit : IsVisit swapped
swapped-IsVisit q [] = refl
swapped-IsVisit q (c ∷ []) = refl
swapped-IsVisit q (c ∷ d ∷ cs) = ground arith

pick_string-IsPicked_example :
    IsPicked title_of pool (pick_string swapped pool title_of)
    × (pick_string swapped pool title_of ≡ pick_string (λ cs. cs) pool title_of)
pick_string-IsPicked_example = pick_string-IsPicked swapped title_of pool swapped-IsVisit

abbrev claim : MetadataProposal
claim = proposed 1 2 (titled (codes "Film"))

claim_content : has_content claim.metadata ≡ true
unfolding has_content non_empty moan_subs.Prelude.Unicode.trim_space
    moan_subs.Prelude.Unicode.trim_left moan_subs.Prelude.Unicode.trim_right
    moan_subs.Prelude.Unicode.is_space
claim_content = refl

record_proposal-opinion_example :
    (db' : Db) × (record_proposal claim 7 sample ≡ ok (db', true))
    × (find (by_account 1 2) db'.proposals ≡ some (opinion claim 7 1 none))
    × (count (by_account 1 2) sample.proposals ≤ 1 → count (by_account 1 2) db'.proposals ≡ 1)
    × ((db'' : Db) × (record_proposal claim 9 db' ≡ ok (db'', true))
        × (find (by_account 1 2) db''.proposals ≡ find (by_account 1 2) db'.proposals))
    × (proposal_by 1 2 (delete_proposal 1 2 db').0 ≡ err not_found)
record_proposal-opinion_example =
    record_proposal-opinion claim 2 7 9 sample refl claim_content refl refl

abbrev named : Release
named = record (film 1) { metadata = titled (codes "Film") }

abbrev trusting : Db
trusting = record sample {
  accounts = record (member 1 false) { trusted = true } ∷ member 2 false ∷ [];
  releases = named ∷ film 2 ∷ [];
  proposals =
      record (says_title 1 1 (codes "Film")) {
        stash_id = some (codes "a1");
        endpoint = some (codes "https://stashdb.org/graphql");
      }
      ∷ [];
}

auto_confirm_if_eligible_example :
    Attempt 1
      (codes "*" ∷ [])
      9
      trusting
      named
      (auto_confirm_if_eligible 1 (codes "*" ∷ []) 9 trusting)
auto_confirm_if_eligible_example =
    auto_confirm_if_eligible_lem 1 (codes "*" ∷ []) 9 trusting named refl

abbrev pin : Confirmation
pin = confirmation_row 1 (some 2) (titled (codes "Film")) 8

abbrev vouched : Db
vouched = record trusting { confirmations = pin ∷ [] }

vouched-IsPinned : IsPinned vouched
vouched-IsPinned i = elim (Bool-cases (1 == i)) [ inl e ↦ rw e refl | inr e ↦ rw e tt ]

abbrev contribution : MetadataEntry
contribution = record {
  release_id = 1;
  oshash = none;
  metadata = titled (codes "Wrong");
  stash_ids =
      record {
        endpoint = codes "https://stashdb.org/graphql";
        ehash = codes "e";
        stash_id = codes "a1";
      }
      ∷ [];
}

abbrev corrections : List Request
corrections =
    propose true none 1 (titled (codes "Wrong")) 2 9
    ∷ contribute true none 1 contribution 10
    ∷ unlink 2
    ∷ link 1 2
    ∷ []

-- The requests leave account 2 as it is.
still_there :
    account_exists
      (some 2)
      (serve_all
        (λ cs. cs)
        corrections
        (handle_mod_release_unconfirm (λ cs. cs) 1 vouched)).accounts
    ≡ true
unfolding serve_all serve handle_mod_release_unconfirm handle_release_propose_metadata
    contribute_one handle_mod_release_link handle_mod_release_unlink record_proposal delete_proposal
    has_content non_empty derive_after_proposal derive_work derive_each derive_metadata
    derivation_pool write_derived work_release_ids maybe_auto_confirm auto_confirm_if_eligible
    resolve_metadata_release get_release_by_id get_release_by_oshash_any add_release_stash_ids
    stash_references link_and_derive unlink_and_derive link_releases link_works unlink_release
    unlink_works unconfirm_metadata moan_subs.Prelude.Unicode.trim_space
    moan_subs.Prelude.Unicode.trim_left moan_subs.Prelude.Unicode.trim_right
    moan_subs.Prelude.Unicode.is_space
still_there = refl

serve_all-unpinned_example :
    let later =
      serve_all (λ cs. cs) corrections (handle_mod_release_unconfirm (λ cs. cs) 1 vouched) in
    let ruled = handle_mod_release_confirm (λ cs. cs) 1 2 11 later in
    (find (of_release 1) later.confirmations ≡ none)
    × ((s : Release) × (find (is_release 1) later.releases ≡ some s)
        × (s.autoconfirm_blocked ≡ true)
        × (find (of_release 1) ruled.confirmations
            ≡ some (confirmation_row 1 (some 2) s.metadata 11))
        × ((t : Release) × (find (is_release 1) ruled.releases ≡ some t)
            × (t.autoconfirm_blocked ≡ false)
            × (t.metadata ≡ s.metadata)))
serve_all-unpinned_example =
    serve_all-unpinned (λ cs. cs) corrections 1 2 11 vouched named refl refl still_there

serve_all-confirmed_example :
    (find (of_release 1) (serve_all (λ cs. cs) corrections vouched).confirmations ≡ some pin)
    × ((r : Release) × (find (is_release 1) (serve_all (λ cs. cs) corrections vouched).releases
          ≡ some r)
        × (r.metadata ≡ pin.metadata))
serve_all-confirmed_example =
    serve_all-confirmed (λ cs. cs) corrections vouched 1 pin refl vouched-IsPinned refl refl

serve_all-IsPinned_example : IsPinned (serve_all (λ cs. cs) (unconfirm 1 ∷ corrections) vouched)
serve_all-IsPinned_example =
    serve_all-IsPinned (λ cs. cs) (unconfirm 1 ∷ corrections) vouched vouched-IsPinned
