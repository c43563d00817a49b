-- ===== src/Store/Metadata/Claims.antt =====
-- internal/store/autoconfirm.go: what the query for a proposal and the check of the runtimes find.
use moan_subs.Prelude.{
  ℕ, ◌*◌, ◌/◌, ◌≤◌, ◌≡◌, refl, ap, subst, Bool, true, false, List, [], ◌∷◌, Option, none, some,
  arith, leb, any, all, find, keep, All, All-kept, Bool-cases, inl, inr, ==_iff,
}
use moan_subs.Prelude.Text.{Text}
use moan_subs.Store.Table.{is_id, is_null}
use moan_subs.Store.Table.Find.{any-found}
use moan_subs.Store.Table.Max.{find_sound}
use moan_subs.Store.Table.Order.{sort_by-All}
use moan_subs.Store.Schema.{Db, Account, Release, Proposal}
use moan_subs.Store.Metadata.{or_empty}
use moan_subs.Store.Metadata.AutoConfirm.{
  accepts_endpoint, is_trusted, may_pin, first_of, later_claim, pinning_proposal, distance,
  bears_id, stash_id_duration_consistent, tolerance_pct,
}

-- Within five percent of a runtime.
abbrev pub IsNear : ℕ → ℕ → Type 0
IsNear d o = (d * 95 ≤ o * 100) × (o * 100 ≤ d * 105)

-- A proposal for the release by an account that is trusted and not disabled, with a stash-box id of an
-- accepted endpoint; the other releases that carry the id, and are not withdrawn, have about its runtime.
abbrev pub IsClaim : ℕ → List Text → Db → ℕ → Proposal → Type 0
IsClaim release endpoints db duration p =
    (p.release_id ≡ release)
    × ((a : Account) × (find (is_trusted p.proposed_by) db.accounts ≡ some a)
        × (p.proposed_by ≡ some a.id)
        × (a.trusted ≡ true)
        × (a.disabled ≡ false))
    × ((e : Text) × (s : Text) × (p.endpoint ≡ some e)
        × (p.stash_id ≡ some s)
        × (accepts_endpoint endpoints e ≡ true)
        × (1 ≤ duration)
        × All (λ o. bears_id release e s db o ≡ true → IsNear duration o.duration_ms) db.releases)

not_null {ℓ} : {A : Type ℓ} (o : Option A) → is_null o ≡ false → (x : A) × (o ≡ some x)
not_null none h = absurd (cc)
not_null (some x) h = (x, refl)

is_id-some : (n : ℕ) (o : Option ℕ) → is_id n o ≡ true → o ≡ some n
is_id-some n none h = absurd (cc)
is_id-some n (some m) h = ap (λ (k : ℕ). some k) ((==_iff m n).0 h)

first_of-All {ℓ} :
    (P : Proposal → Type ℓ) (ps : List Proposal) (p : Proposal)
    → All P ps
    → first_of ps ≡ some p
    → P p
first_of-All P [] p h e = absurd (cc)
first_of-All P (q ∷ ps) p (h, _) e = let same : q ≡ p = cc in subst P same h

pinning-may_pin :
    (release : ℕ) (endpoints : List Text) (db : Db) (p : Proposal)
    → pinning_proposal release endpoints db ≡ some p
    → may_pin release endpoints db p ≡ true
unfolding pinning_proposal
pinning-may_pin release endpoints db p e =
    let chosen = may_pin release endpoints db in
    first_of-All (λ q. chosen q ≡ true) _ p
      (sort_by-All (λ q. chosen q ≡ true) later_claim (keep chosen db.proposals)
        (All-kept (λ q. chosen q ≡ true) chosen (λ q h. h) db.proposals))
      e

distance-IsNear : (d o : ℕ) → leb (distance d o) (d * tolerance_pct / 100) ≡ true → IsNear d o
distance-IsNear d o h = ground arith

all-IsNear :
    (d : ℕ) (p : Release → Bool) (rows : List Release)
    → all (λ r. leb (distance d r.duration_ms) (d * tolerance_pct / 100)) (keep p rows) ≡ true
    → All (λ o. p o ≡ true → IsNear d o.duration_ms) rows
all-IsNear d p [] h = tt
all-IsNear d p (r ∷ rows) h = elim (Bool-cases (p r)) [
  | inl e ↦
      let kept : all (λ (o : Release). leb (distance d o.duration_ms) (d * tolerance_pct / 100))
            (r ∷ keep p rows)
          ≡ true =
        rw e at h in
      let here : leb (distance d r.duration_ms) (d * tolerance_pct / 100) ≡ true = ground arith in
      ((λ x. distance-IsNear d r.duration_ms here), all-IsNear d p rows (ground arith))
  | inr e ↦ ((λ x. absurd (cc (x, e))), all-IsNear d p rows (rw e at h))
]

trusted_account :
    (proposer : Option ℕ) (db : Db)
    → any (is_trusted proposer) db.accounts ≡ true
    → (a : Account) × (find (is_trusted proposer) db.accounts ≡ some a)
      × (proposer ≡ some a.id)
      × (a.trusted ≡ true)
      × (a.disabled ≡ false)
trusted_account proposer db h =
    let (a, found) = any-found (is_trusted proposer) db.accounts h in
    let sound : is_trusted proposer a ≡ true =
      find_sound (is_trusted proposer) db.accounts a found in
    (a, found, is_id-some a.id proposer (ground arith), ground arith, ground arith)

pub pinning-IsClaim :
    (release : ℕ) (endpoints : List Text) (db : Db) (r : Release) (p : Proposal)
    → pinning_proposal release endpoints db ≡ some p
    → stash_id_duration_consistent release
        (or_empty p.endpoint)
        (or_empty p.stash_id)
        r.duration_ms
        db
      ≡ true
    → IsClaim release endpoints db r.duration_ms p
unfolding may_pin stash_id_duration_consistent
pinning-IsClaim release endpoints db r p picked near =
    let chosen : may_pin release endpoints db p ≡ true =
      pinning-may_pin release endpoints db p picked in
    let (e, has_endpoint) = not_null p.endpoint (ground arith) in
    let (s, has_id) = not_null p.stash_id (ground arith) in
    let accepted : accepts_endpoint endpoints (or_empty p.endpoint) ≡ true = ground arith in
    let near_all =
      all-IsNear r.duration_ms (bears_id release (or_empty p.endpoint) (or_empty p.stash_id) db)
        db.releases (ground arith) in
    let endpoint : or_empty p.endpoint ≡ e = ap or_empty has_endpoint in
    let id : or_empty p.stash_id ≡ s = ap or_empty has_id in
    (
      (==_iff p.release_id release).0 (ground arith),
      trusted_account p.proposed_by db (ground arith),
      (
        e,
        s,
        has_endpoint,
        has_id,
        subst (λ (t : Text). accepts_endpoint endpoints t ≡ true) endpoint accepted,
        ground arith,
        subst
            (λ (t : Text).
              All (λ o. bears_id release t s db o ≡ true → IsNear r.duration_ms o.duration_ms)
                db.releases)
            endpoint
            (subst
              (λ (t : Text).
                All
                  (λ o.
                    bears_id release (or_empty p.endpoint) t db o ≡ true
                    → IsNear r.duration_ms o.duration_ms)
                  db.releases)
              id near_all),
      ),
    )
