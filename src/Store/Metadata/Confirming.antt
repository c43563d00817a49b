-- ===== src/Store/Metadata/Confirming.antt =====
-- internal/store/metadata.go: what the operations on proposals and confirmations do to the pins.
use moan_subs.Prelude.{
  ℕ, ◌≡◌, refl, sym, ap, subst, Bool, true, false, ◌&&◌, List, [], ◌∷◌, Option, none, some, arith,
  ◌==◌, any, find, Bool-cases, inl, inr, ==_iff, ==_refl,
}
use moan_subs.Prelude.Result.{ok}
use moan_subs.Store.Table.{update_where, delete_where}
use moan_subs.Store.Table.Find.{find-delete_other, any-find}
use moan_subs.Store.Table.Upsert.{find-upsert, find-upsert_other}
use moan_subs.Store.Schema.{Db, Release, Metadata, Confirmation}
use moan_subs.Store.Removals.{account_exists}
use moan_subs.Store.Releases.{is_release}
use moan_subs.Store.Metadata.{
  MetadataProposal, has_content, by_account, revise, add_proposal, release_exists, record_proposal,
  insert_proposal, put_proposal, of_release, confirmation_row, repin, put_confirmation,
  block_autoconfirm, confirm_metadata, unconfirm_metadata, purge_proposals,
}
use moan_subs.Store.Metadata.Pins.{Shows, IsPinned, block-IsPinned}

Shows-same : (c c' : Option Confirmation) (r : Option Release) → c' ≡ c → Shows c r → Shows c' r
Shows-same c c' r e h = subst (λ (x : Option Confirmation). Shows x r) (sym e) h

Shows-repinned :
    (o : Option Confirmation) (release : ℕ) (by : Option ℕ) (m : Metadata) (now : ℕ) (r : Release)
    → r.metadata ≡ m
    → Shows
        (elim o [
          | none ↦ some (confirmation_row release by m now)
          | some c ↦ some (repin by m now c)
        ])
        (some r)
Shows-repinned none release by m now r h = h
Shows-repinned (some c) release by m now r h = h

pub apart_pins :
    (i release : ℕ) (c : Confirmation)
    → (release == i) ≡ false
    → of_release release c ≡ true
    → of_release i c ≡ false
apart_pins i release c ne h = ground arith

-- A pin of what the release shows.
pub put_confirmation-IsPinned :
    (release : ℕ) (by : Option ℕ) (now : ℕ) (db : Db) (r : Release)
    → find (is_release release) db.releases ≡ some r
    → IsPinned db
    → IsPinned (put_confirmation release by r.metadata now db)
put_confirmation-IsPinned release by now db r found h i = elim (Bool-cases (release == i)) [
  | inl e ↦
      let same : release ≡ i = (==_iff release i).0 e in
      let pin =
        find-upsert (of_release release) (repin by r.metadata now)
          (confirmation_row release by r.metadata now) db.confirmations (λ c hit. hit)
          (==_refl release) in
      subst
        (λ (k : ℕ).
          Shows (find (of_release k) (put_confirmation release by r.metadata now db).confirmations)
            (find (is_release k) db.releases))
        same
        (rw (pin, found)
          (Shows-repinned (find (of_release release) db.confirmations) release by r.metadata now r
            refl))
  | inr e ↦
      Shows-same (find (of_release i) db.confirmations) _ _
        (find-upsert_other (of_release i) (of_release release) (repin by r.metadata now)
          (confirmation_row release by r.metadata now) db.confirmations
          (λ c hit. (apart_pins i release c e hit, apart_pins i release c e hit)) e)
        (h i)
]

gone_pins :
    (d : Confirmation → Bool) (gone : ℕ → Bool) (i : ℕ)
    → ((c : Confirmation) → d c ≡ gone c.release_id)
    → gone i ≡ true
    → (rows : List Confirmation) → find (of_release i) (delete_where d rows) ≡ none
gone_pins d gone i by_id e [] = refl
gone_pins d gone i by_id e (c ∷ rows) = elim (Bool-cases (d c)) [
  | inl x ↦ rw x (gone_pins d gone i by_id e rows)
  | inr x ↦ elim (Bool-cases (c.release_id == i)) [
    | inl y ↦
        let same : c.release_id ≡ i = (==_iff c.release_id i).0 y in
        absurd (cc (by_id c, ap gone same, e, x))
    | inr y ↦ rw (x, y) (gone_pins d gone i by_id e rows)
  ]
]

spared_pin :
    (d : Confirmation → Bool) (gone : ℕ → Bool) (i : ℕ) (c : Confirmation)
    → ((c : Confirmation) → d c ≡ gone c.release_id)
    → gone i ≡ false
    → d c ≡ true
    → of_release i c ≡ false
spared_pin d gone i c by_id e hit = elim (Bool-cases (c.release_id == i)) [
  | inl y ↦
      let same : c.release_id ≡ i = (==_iff c.release_id i).0 y in
      absurd (cc (by_id c, ap gone same, e, hit))
  | inr y ↦ y
]

-- Pins that are taken away by the ids of their releases leave the others.
deleted-IsPinned :
    (d : Confirmation → Bool) (gone : ℕ → Bool) (db : Db)
    → ((c : Confirmation) → d c ≡ gone c.release_id)
    → IsPinned db
    → IsPinned (record db { confirmations = delete_where d db.confirmations })
deleted-IsPinned d gone db by_id h i = elim (Bool-cases (gone i)) [
  | inl e ↦ Shows-same none _ _ (gone_pins d gone i by_id e db.confirmations) tt
  | inr e ↦
      Shows-same (find (of_release i) db.confirmations) _ _
        (find-delete_other d (of_release i) (λ c hit. spared_pin d gone i c by_id e hit)
          db.confirmations)
        (h i)
]

pub unconfirm_metadata-IsPinned :
    (release : ℕ) (db : Db) → IsPinned db → IsPinned (unconfirm_metadata release db)
unfolding unconfirm_metadata
unconfirm_metadata-IsPinned release db h =
    block-IsPinned true release
      (record db { confirmations = delete_where (of_release release) db.confirmations })
      (deleted-IsPinned (of_release release) (λ i. i == release) db (λ c. refl) h)

pub purge_proposals-IsPinned :
    (ids : List ℕ) (db : Db) → IsPinned db → IsPinned (purge_proposals ids db)
unfolding purge_proposals
purge_proposals-IsPinned ids db h i =
    deleted-IsPinned (λ c. any (λ j. j == c.release_id) ids) (λ k. any (λ j. j == k) ids) db
      (λ c. refl) h i

-- ConfirmMetadata of what the release shows, by a person that there is or by nobody.
pub confirm_metadata-IsPinned :
    (release : ℕ) (by : Option ℕ) (now : ℕ) (db : Db) (r : Release)
    → find (is_release release) db.releases ≡ some r
    → account_exists by db.accounts ≡ true
    → (db' : Db) × (confirm_metadata release by r.metadata now db ≡ ok db')
      × (IsPinned db → IsPinned db')
unfolding confirm_metadata
confirm_metadata-IsPinned release none now db r found known = (
  put_confirmation release none r.metadata now db,
  rw (any-find (is_release release) db.releases r found) refl,
  put_confirmation-IsPinned release none now db r found,
)
confirm_metadata-IsPinned release (some a) now db r found known = (
  block_autoconfirm false release (put_confirmation release (some a) r.metadata now db),
  rw (any-find (is_release release) db.releases r found, known) refl,
  λ h.
      block-IsPinned false release (put_confirmation release (some a) r.metadata now db)
        (put_confirmation-IsPinned release (some a) now db r found h),
)

-- A proposal is a row of its own table.
abbrev pub SameReleases : Db → Db → Type 0
SameReleases db db' = (db'.releases ≡ db.releases) × (db'.confirmations ≡ db.confirmations)

inserted-releases :
    (n : MetadataProposal) (now : ℕ) (db db' : Db) (recorded : Bool)
    → insert_proposal n now db ≡ ok (db', recorded)
    → SameReleases db db'
inserted-releases n now db db' recorded e =
    elim (Bool-cases (release_exists n.release_id db && account_exists n.proposed_by db.accounts)) [
      | inl h ↦
          let same : add_proposal n now db ≡ db' = cc (rw h at e) in
          (ap (λ (x : Db). x.releases) (sym same), ap (λ (x : Db). x.confirmations) (sym same))
      | inr h ↦ absurd (cc (rw h at e))
    ]

put-releases :
    (n : MetadataProposal) (by : Option ℕ) (now : ℕ) (db db' : Db) (recorded : Bool)
    → put_proposal n by now db ≡ ok (db', recorded)
    → SameReleases db db'
put-releases n none now db db' recorded e = inserted-releases n now db db' recorded e
put-releases n (some a) now db db' recorded e =
    elim (Bool-cases (any (by_account n.release_id a) db.proposals)) [
      | inl h ↦
          let same : record db {
            proposals = update_where (by_account n.release_id a) (revise n now) db.proposals;
          }
              ≡ db' =
            cc (rw h at e) in
          (ap (λ (x : Db). x.releases) (sym same), ap (λ (x : Db). x.confirmations) (sym same))
      | inr h ↦ inserted-releases n now db db' recorded (rw h at e)
    ]

pub record_proposal-releases :
    (n : MetadataProposal) (now : ℕ) (db db' : Db) (recorded : Bool)
    → record_proposal n now db ≡ ok (db', recorded)
    → SameReleases db db'
unfolding record_proposal
record_proposal-releases n now db db' recorded e = elim (Bool-cases (has_content n.metadata)) [
  | inl h ↦ put-releases n n.proposed_by now db db' recorded (rw h at e)
  | inr h ↦
      let same : db ≡ db' = cc (rw h at e) in
      (ap (λ (x : Db). x.releases) (sym same), ap (λ (x : Db). x.confirmations) (sym same))
]
