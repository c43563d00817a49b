-- ===== src/Store/Metadata/Pins.antt =====
-- internal/store/metadata.go: a release whose metadata is confirmed shows what was confirmed.
use moan_subs.Prelude.{
  ℕ, ◌≡◌, ◌≢◌, refl, ap, subst, ◌∙◌, Bool, true, false, List, [], ◌∷◌, Option, none, some, arith,
  ◌==◌, any, find, keep, All, Bool-cases, inl, inr, ==_iff, ==_refl,
}
use moan_subs.Prelude.Result.{Result, ok}
use moan_subs.Store.Table.{update_where, All-map}
use moan_subs.Store.Table.Find.{find-none, any-found}
use moan_subs.Store.Table.Upsert.{find-update, find-update_other}
use moan_subs.Store.Table.Keep.{any-update_unseen, All-keep, All-map_rows}
use moan_subs.Store.Table.Order.{sort_by-All}
use moan_subs.Store.Works.{in_work}
use moan_subs.Store.Schema.{Db, Release, Metadata, Confirmation, StoreError}
use moan_subs.Store.Releases.{is_release}
use moan_subs.Store.Metadata.{of_release, block_autoconfirm}
use moan_subs.Store.Metadata.Blocks.{IsBlocked, update-IsBlocked}
use moan_subs.Store.Metadata.Derive.{
  Candidate, set_metadata, write_derived, pinned_or_derived, derivation_pool, derive_metadata,
  derive_each, derive_work, derive_in, derive_after_proposal, work_release_ids, pool_of, lower_id,
}

abbrev pub Shows : Option Confirmation → Option Release → Type 0
Shows none r = Unit {0}
Shows (some c) none = Unit {0}
Shows (some c) (some r) = r.metadata ≡ c.metadata

-- Each release that has a pin shows it.
abbrev pub IsPinned : Db → Type 0
IsPinned db =
    (i : ℕ) → Shows (find (of_release i) db.confirmations) (find (is_release i) db.releases)

same_id : (i : ℕ) (r : Release) → is_release i r ≡ true → r.id ≡ i
same_id i r h = (==_iff r.id i).0 h

-- An update that leaves ids and metadata alone.
Shows-update :
    (c : Option Confirmation) (q p : Release → Bool) (f : Release → Release)
    → ((r : Release) → q (f r) ≡ q r)
    → ((r : Release) → (f r).metadata ≡ r.metadata)
    → (rows : List Release) → Shows c (find q rows)
    → Shows c (find q (update_where p f rows))
Shows-update none q p f same kept rows h = tt
Shows-update (some c) q p f same kept [] h = tt
Shows-update (some c) q p f same kept (r ∷ rows) h = elim (Bool-cases (q r)) [
  | inl e ↦ elim (Bool-cases (p r)) [
    | inl d ↦ rw (d, same r, e) (kept r ∙ rw e at h)
    | inr d ↦ rw (d, e) (rw e at h)
  ]
  | inr e ↦
      let rest = Shows-update (some c) q p f same kept rows (rw e at h) in
      elim (Bool-cases (p r)) [ inl d ↦ rw (d, same r, e) rest | inr d ↦ rw (d, e) rest ]
]

pub update-IsPinned :
    (p : Release → Bool) (f : Release → Release)
    → ((r : Release) → (f r).id ≡ r.id)
    → ((r : Release) → (f r).metadata ≡ r.metadata)
    → (db : Db) → IsPinned db
    → IsPinned (record db { releases = update_where p f db.releases })
update-IsPinned p f same kept db h i =
    Shows-update (find (of_release i) db.confirmations) (is_release i) p f
      (λ r. ap (λ (n : ℕ). n == i) (same r)) kept db.releases (h i)

pub block-IsPinned :
    (b : Bool) (release : ℕ) (db : Db) → IsPinned db → IsPinned (block_autoconfirm b release db)
block-IsPinned b release db h =
    update-IsPinned (is_release release) (λ r. record r { autoconfirm_blocked = b }) (λ r. refl)
      (λ r. refl) db h

apart_ids :
    (i release : ℕ) (r : Release)
    → release ≢ i
    → is_release release r ≡ true
    → is_release i r ≡ false
apart_ids i release r ne h = ground (arith, same_id release r h)

Shows-missing : (o : Option Confirmation) → Shows o none
Shows-missing none = tt
Shows-missing (some c) = tt

Shows-written :
    (o : Option Confirmation) (m : Metadata) (r : Release)
    → ((c : Confirmation) → o ≡ some c → m ≡ c.metadata)
    → Shows o (some (set_metadata m r))
Shows-written none m r pin = tt
Shows-written (some c) m r pin = pin c refl

-- Writing what is pinned, or anything where there is no pin.
write-IsPinned :
    (release : ℕ) (m : Metadata) (db : Db)
    → ((c : Confirmation) → find (of_release release) db.confirmations ≡ some c → m ≡ c.metadata)
    → IsPinned db
    → IsPinned (write_derived release m db)
unfolding write_derived
write-IsPinned release m db pin h i = elim (Bool-cases (release == i)) [
  | inl e ↦
      let same : release ≡ i = (==_iff release i).0 e in
      subst
        (λ (k : ℕ).
          Shows (find (of_release k) db.confirmations)
            (find (is_release k) (update_where (is_release release) (set_metadata m) db.releases)))
        same
        (elim (Bool-cases (any (is_release release) db.releases)) [
          | inl there ↦
              let (r, _, found) =
                find-update (is_release release) (set_metadata m) (λ r e. e) db.releases there in
              rw found (Shows-written (find (of_release release) db.confirmations) m r pin)
          | inr none_there ↦
              let missing = find-none (is_release release) _ (
                any-update_unseen (is_release release) (is_release release) (set_metadata m)
                  (λ r. refl) db.releases
                ∙ none_there) in
              rw missing (Shows-missing (find (of_release release) db.confirmations))
        ])
  | inr e ↦
      let ne : release ≢ i = λ same. ground arith in
      rw
        (find-update_other (is_release i) (is_release release) (set_metadata m)
          (λ r hit. (apart_ids i release r ne hit, apart_ids i release r ne hit)) db.releases)
        (h i)
]

-- The releases of the database are those of another.
abbrev pub SameIds : Db → Db → Type 0
SameIds db db' = (i : ℕ) → any (is_release i) db'.releases ≡ any (is_release i) db.releases

module _ (visit : List Candidate → List Candidate) where
  -- What derivation leaves as it was, and that it succeeds.
  abbrev pub IsDerived : Result StoreError Db → Db → Type 0
  IsDerived result db =
      (db' : Db) × (result ≡ ok db')
      × (IsPinned db → IsPinned db')
      × (db'.confirmations ≡ db.confirmations)
      × SameIds db db'
      × ((i : ℕ) → IsBlocked i db.releases → IsBlocked i db'.releases)

  written_pin :
      (release : ℕ) (pool : List ℕ) (db : Db) (c : Confirmation)
      → find (of_release release) db.confirmations ≡ some c
      → pinned_or_derived visit (find (of_release release) db.confirmations) pool db ≡ c.metadata
  written_pin release pool db c e = rw e refl

  pub derive_metadata-Derived :
      (release : ℕ) (db : Db)
      → any (is_release release) db.releases ≡ true
      → IsDerived (derive_metadata visit release db) db
  unfolding derive_metadata derivation_pool write_derived
  derive_metadata-Derived release db there =
      let (r, found) = any-found (is_release release) db.releases there in
      let pool = pool_of release r.work_id db in
      let m = pinned_or_derived visit (find (of_release release) db.confirmations) pool db in
      (
        write_derived release m db,
        rw found refl,
        write-IsPinned release m db (λ c e. written_pin release pool db c e),
        refl,
        λ i.
            any-update_unseen (is_release i) (is_release release) (set_metadata m) (λ r. refl)
              db.releases,
        λ i h.
            update-IsBlocked (is_release release) (set_metadata m) (λ r. refl) (λ r e. e) i
              db.releases h,
      )

  pub derive_each-Derived :
      (ids : List ℕ) (db : Db)
      → All (λ i. any (is_release i) db.releases ≡ true) ids
      → IsDerived (derive_each visit ids db) db
  unfolding derive_each
  derive_each-Derived [] db h = (db, refl, λ p. p, refl, λ i. refl, λ i h. h)
  derive_each-Derived (i ∷ ids) db (there, rest) =
      let (one, e, pinned, pins, ids_one, blocks) = derive_metadata-Derived i db there in
      let (all, e', pinned', pins', ids_all, blocks') =
        derive_each-Derived ids one (All-map (λ j h. ids_one j ∙ h) ids rest) in
      (
        all,
        rw e e',
        λ p. pinned' (pinned p),
        pins' ∙ pins,
        λ j. ids_all j ∙ ids_one j,
        λ j h. blocks' j (blocks j h),
      )

  pub present :
      (rows every : List Release)
      → ((q : Release → Bool) → any q rows ≡ true → any q every ≡ true)
      → All (λ r. any (is_release r.id) every ≡ true) rows
  present [] every h = tt
  present (r ∷ rows) every h = (
    h (is_release r.id) (rw (==_refl r.id) refl),
    present rows every (λ q e. h q (ground (arith, e))),
  )

  members-present :
      (w : ℕ) (db : Db) → All (λ i. any (is_release i) db.releases ≡ true) (work_release_ids w db)
  unfolding work_release_ids
  members-present w db =
      All-map_rows (λ i. any (is_release i) db.releases ≡ true) (λ (r : Release). r.id) _
        (sort_by-All (λ r. any (is_release r.id) db.releases ≡ true) lower_id
          (keep (in_work w) db.releases)
          (All-keep (in_work w) (λ r h _. h) db.releases
            (present db.releases db.releases (λ q e. e))))

  pub derive_work-Derived : (w : ℕ) (db : Db) → IsDerived (derive_work visit w db) db
  unfolding derive_work
  derive_work-Derived w db = derive_each-Derived (work_release_ids w db) db (members-present w db)

  -- Deriving again after a proposal succeeds for a release that is there. It changes no confirmation, and
  -- each release that shows its pin goes on showing it.
  pub derive_after_proposal-IsPinned :
      (release : ℕ) (db : Db)
      → any (is_release release) db.releases ≡ true
      → IsDerived (derive_after_proposal visit release db) db
  unfolding derive_after_proposal
  derive_after_proposal-IsPinned release db there =
      let (r, found) = any-found (is_release release) db.releases there in
      rw found (derived_in r.work_id)
    where
      derived_in : (w : Option ℕ) → IsDerived (derive_in visit release w db) db
      derived_in none = derive_metadata-Derived release db there
      derived_in (some w) = derive_work-Derived w db
