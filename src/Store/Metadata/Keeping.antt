-- ===== src/Store/Metadata/Keeping.antt =====
-- internal/store/metadata.go: what a step on the store keeps of the pins, and of the releases without one.
use moan_subs.Prelude.{ℕ, ◌≡◌, refl, sym, ap, subst, ◌∙◌, Bool, List, Option, some, ◌==◌, any, find}
use moan_subs.Prelude.Result.{Result, ok}
use moan_subs.Store.Table.{update_where}
use moan_subs.Store.Table.Keep.{any-update_unseen}
use moan_subs.Store.Schema.{Db, Release, Confirmation, StoreError}
use moan_subs.Store.Releases.{is_release}
use moan_subs.Store.Works.{set_work}
use moan_subs.Store.Metadata.{of_release}
use moan_subs.Store.Metadata.Blocks.{IsBlocked, IsUnpinned, update-IsBlocked}
use moan_subs.Store.Metadata.Derive.{Candidate}
use moan_subs.Store.Metadata.Pins.{Shows, IsPinned, SameIds, IsDerived, update-IsPinned}

-- Pins go on being shown, the releases and the pins stay, and a release that is unpinned stays so.
abbrev pub Keeps : Db → Db → Type 0
Keeps db db' =
    (IsPinned db → IsPinned db')
    × SameIds db db'
    × ((i : ℕ) (c : Confirmation)
        → find (of_release i) db.confirmations ≡ some c
        → find (of_release i) db'.confirmations ≡ some c)
    × ((i : ℕ) → IsUnpinned i db → IsUnpinned i db')

pub keeps_all : (db : Db) → Keeps db db
keeps_all db = (λ h. h, λ i. refl, λ i c h. h, λ i h. h)

pub keeps_both : (db db' db'' : Db) → Keeps db db' → Keeps db' db'' → Keeps db db''
keeps_both db db' db'' (p, s, k, u) (p', s', k', u') =
    (λ h. p' (p h), λ i. s' i ∙ s i, λ i c h. k' i c (k i c h), λ i h. u' i (u i h))

-- The pins of a step that touches no confirmation.
pub keeps_pins :
    (db db' : Db)
    → db'.confirmations ≡ db.confirmations
    → (IsPinned db → IsPinned db')
    → SameIds db db'
    → ((i : ℕ) → IsBlocked i db.releases → IsBlocked i db'.releases)
    → Keeps db db'
keeps_pins db db' pins shown ids blocks = (
  shown,
  ids,
  λ i c h. ap (λ (rows : List Confirmation). find (of_release i) rows) pins ∙ h,
  λ i (blocked, bare).
      (blocks i blocked, ap (λ (rows : List Confirmation). find (of_release i) rows) pins ∙ bare),
)

pub keeps_rows :
    (db db' : Db) → db'.releases ≡ db.releases → db'.confirmations ≡ db.confirmations → Keeps db db'
keeps_rows db db' releases pins =
    keeps_pins db db' pins
      (λ h i.
        subst
          (λ (rows : List Release).
            Shows (find (of_release i) db'.confirmations) (find (is_release i) rows))
          (sym releases)
          (subst
            (λ (rows : List Confirmation).
              Shows (find (of_release i) rows) (find (is_release i) db.releases))
            (sym pins) (h i)))
      (λ i. ap (λ (rows : List Release). any (is_release i) rows) releases)
      (λ i h. subst (λ (rows : List Release). IsBlocked i rows) (sym releases) h)

-- An update of releases that leaves ids, names and blocks alone.
pub keeps_update :
    (p : Release → Bool) (f : Release → Release)
    → ((r : Release) → (f r).id ≡ r.id)
    → ((r : Release) → (f r).metadata ≡ r.metadata)
    → ((r : Release) → (f r).autoconfirm_blocked ≡ r.autoconfirm_blocked)
    → (db : Db) → Keeps db (record db { releases = update_where p f db.releases })
keeps_update p f same kept blocks db =
    keeps_pins db (record db { releases = update_where p f db.releases }) refl
      (update-IsPinned p f same kept db)
      (λ i. any-update_unseen (is_release i) p f (λ r. ap (λ (n : ℕ). n == i) (same r)) db.releases)
      (λ i h. update-IsBlocked p f same (λ r e. blocks r ∙ e) i db.releases h)

pub keeps_works :
    (p : Release → Bool) (w : Option ℕ) (db : Db)
    → Keeps db (record db { releases = update_where p (set_work w) db.releases })
keeps_works p w db = keeps_update p (set_work w) (λ r. refl) (λ r. refl) (λ r. refl) db

module _ (visit : List Candidate → List Candidate) where
  pub derived_once :
      (result : Result StoreError Db) (db : Db)
      → IsDerived visit result db
      → (db' : Db) × (result ≡ ok db') × Keeps db db'
  derived_once result db (db', e, shown, pins, ids, blocks) =
      (db', e, keeps_pins db db' pins shown ids blocks)
