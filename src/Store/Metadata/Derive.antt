-- ===== src/Store/Metadata/Derive.antt =====
-- internal/store/metadata.go: the metadata of a release, derived from the proposals for its work.
use moan_subs.Prelude.{
  ℕ, suc, ◌+◌, Bool, true, false, not, ◌&&◌, ◌||◌, List, [], ◌∷◌, Option, none, some, ltb, leb,
  ◌==◌, if◌then◌else◌, any, find, keep, map,
}
use moan_subs.Prelude.Result.{Result, ok, ◌>>=◌}
use moan_subs.Prelude.Text.{Text, text_eq}
use moan_subs.Prelude.Unicode.{trim_space}
use moan_subs.Store.Table.{update_where}
use moan_subs.Store.Table.Order.{sort_by}
use moan_subs.Store.Table.Upsert.{upsert_where}
use moan_subs.Store.Releases.{is_release}
use moan_subs.Store.Works.{in_work}
use moan_subs.Store.Schema.{Db, Release, Metadata, Proposal, Confirmation, StoreError, or_not_found}
use moan_subs.Store.Metadata.{or_empty, is_empty, non_empty, of_release}

-- ProposalsFor: newest first, ORDER BY created_at DESC, id DESC.
abbrev pub newer : Proposal → Proposal → Bool
newer p q = ltb q.created_at p.created_at || (q.created_at == p.created_at && leb q.id p.id)

unfoldable pub proposals_for : List ℕ → Db → List Proposal
proposals_for ids db = sort_by newer (keep (λ p. any (λ i. i == p.release_id) ids) db.proposals)

-- candidate.
pub record Candidate : Type 0 where
  pub value : Text
  pub stash_box : Bool
  pub agree : ℕ
  pub order : ℕ

abbrev pub same_bool : Bool → Bool → Bool
same_bool true b = b
same_bool false b = not b

-- candidate.better.
unfoldable pub better : Candidate → Candidate → Bool
better a b =
    if not (same_bool a.stash_box b.stash_box)
    then a.stash_box
    else if not (a.agree == b.agree)
    then ltb b.agree a.agree
    else ltb a.order b.order

-- The body of the first loop of pickString: a map of candidates by value.
abbrev pub has_value : Text → Candidate → Bool
has_value v c = text_eq c.value v

abbrev pub heard : Bool → Candidate → Candidate
heard backed c = record c { agree = c.agree + 1; stash_box = backed || c.stash_box }

abbrev pub new_candidate : Text → Bool → ℕ → Candidate
new_candidate v backed i = record { value = v; stash_box = backed; agree = 1; order = i }

abbrev pub hear : Text → Bool → ℕ → List Candidate → List Candidate
hear v backed i cs = upsert_where (has_value v) (heard backed) (new_candidate v backed i) cs

module _ (field : Metadata → Option Text) where
  unfoldable pub gather : ℕ → List Proposal → List Candidate → List Candidate
  gather i [] cs = cs
  gather i (p ∷ ps) cs =
      let v = field p.metadata in
      gather (suc i) ps
        (if non_empty v then hear (trim_space (or_empty v)) (non_empty p.stash_id) i cs else cs)

-- The second loop, over the map: the best candidate so far is replaced by a better one.
abbrev pub beats : Candidate → Option Candidate → Bool
beats c none = true
beats c (some b) = better c b

unfoldable pub best : Option Candidate → List Candidate → Option Candidate
best b [] = b
best b (c ∷ cs) = best (if beats c b then some c else b) cs

abbrev pub value_of : Option Candidate → Option Text
value_of none = none
value_of (some c) = some c.value

-- pickPerformers: a name is kept if a proposal with a stash-box id gives it or it was given twice, and
-- all names are if none is kept so.
abbrev pub hear_names : List Text → Bool → List Candidate → List Candidate
hear_names [] backed cs = cs
hear_names (n ∷ names) backed cs =
    let v = trim_space n in hear_names names backed (if is_empty v then cs else hear v backed 0 cs)

abbrev pub gather_names : List Proposal → List Candidate → List Candidate
gather_names [] cs = cs
gather_names (p ∷ ps) cs =
    gather_names ps (hear_names p.metadata.performers (non_empty p.stash_id) cs)

abbrev pub corroborated : Candidate → Bool
corroborated c = c.stash_box || ltb 1 c.agree

abbrev pub all_if_none : List Candidate → List Candidate → List Candidate
all_if_none seen [] = seen
all_if_none seen (c ∷ cs) = c ∷ cs

-- sort.Strings, by code points as bytes.
abbrev pub text_leb : Text → Text → Bool
text_leb [] t = true
text_leb (c ∷ s) [] = false
text_leb (c ∷ s) (d ∷ t) = if c == d then text_leb s t else ltb c d

-- WorkReleaseIDs, in the order of the ids, and derivationPool.
abbrev pub lower_id : Release → Release → Bool
lower_id r s = leb r.id s.id

unfoldable pub work_release_ids : ℕ → Db → List ℕ
work_release_ids w db =
    map (λ (r : Release). r.id) (sort_by lower_id (keep (in_work w) db.releases))

abbrev pub pool_of : ℕ → Option ℕ → Db → List ℕ
pool_of release none db = release ∷ []
pool_of release (some w) db = work_release_ids w db

unfoldable pub derivation_pool : ℕ → Db → Result StoreError (List ℕ)
derivation_pool release db = do
  r ← or_not_found (find (is_release release) db.releases)
  ok (pool_of release r.work_id db)

-- writeDerived.
abbrev pub set_metadata : Metadata → Release → Release
set_metadata m r = record r { metadata = m }

unfoldable pub write_derived : ℕ → Metadata → Db → Db
write_derived release m db = record db {
  releases = update_where (is_release release) (set_metadata m) db.releases;
}

-- The order in which a loop over a map comes to its entries is a parameter.
module _ (visit : List Candidate → List Candidate) where
  unfoldable pub pick_string : List Proposal → (Metadata → Option Text) → Option Text
  pick_string ps field = value_of (best none (visit (gather field 0 ps [])))

  unfoldable pub pick_performers : List Proposal → List Text
  pick_performers ps =
      let seen = gather_names ps [] in
      sort_by text_leb (
        map (λ (c : Candidate). c.value)
          (all_if_none (visit seen) (keep corroborated (visit seen))))

  unfoldable pub derive_from : List Proposal → Metadata
  derive_from ps = record {
    title = pick_string ps (λ m. m.title);
    release_date = pick_string ps (λ m. m.release_date);
    studio = pick_string ps (λ m. m.studio);
    performers = pick_performers ps;
  }

  -- DeriveMetadata: the pin, or what follows from the proposals.
  abbrev pub pinned_or_derived : Option Confirmation → List ℕ → Db → Metadata
  pinned_or_derived none pool db = derive_from (proposals_for pool db)
  pinned_or_derived (some c) pool db = c.metadata

  unfoldable pub derive_metadata : ℕ → Db → Result StoreError Db
  derive_metadata release db = do
    pool ← derivation_pool release db
    ok (
        write_derived release
          (pinned_or_derived (find (of_release release) db.confirmations) pool db) db)

  -- DeriveWork.
  unfoldable pub derive_each : List ℕ → Db → Result StoreError Db
  derive_each [] db = ok db
  derive_each (i ∷ ids) db = derive_metadata i db >>= λ derived. derive_each ids derived

  unfoldable pub derive_work : ℕ → Db → Result StoreError Db
  derive_work w db = derive_each (work_release_ids w db) db

  -- DeriveAfterProposal.
  abbrev pub derive_in : ℕ → Option ℕ → Db → Result StoreError Db
  derive_in release none db = derive_metadata release db
  derive_in release (some w) db = derive_work w db

  unfoldable pub derive_after_proposal : ℕ → Db → Result StoreError Db
  derive_after_proposal release db = do
    r ← or_not_found (find (is_release release) db.releases)
    derive_in release r.work_id db
