-- ===== src/Store/Metadata/Regroup.antt =====
-- internal/store/work.go: LinkReleases and UnlinkRelease to their end, with what they derive again after
-- the commit.
pub mod Regrouped
use moan_subs.Prelude.{
  ℕ, suc, ◌≡◌, refl, sym, ◌∙◌, Bool, true, false, List, [], ◌∷◌, ◌++◌, Option, none, some, ltb,
  ◌==◌, if◌then◌else◌, any, find, keep, map, count, Bool-cases, inl, inr,
}
use moan_subs.Prelude.Result.{Result, ok, ◌>>=◌}
use moan_subs.Store.Table.{update_where, delete_where}
use moan_subs.Store.Table.Find.{any-find}
use moan_subs.Store.Table.Keep.{any-update_unseen, All-keep, All-map_rows}
use moan_subs.Store.Schema.{Db, Release, StoreError}
use moan_subs.Store.Releases.{is_release}
use moan_subs.Store.Works.{
  in_work, set_work, is_either, set_pair, merge_works, larger_work, link_works, link_releases,
  found_release, sibling_offset, dissolve, unlink_works, unlink_release,
}
use moan_subs.Store.Metadata.Derive.{Candidate, derive_metadata, derive_each, derive_work}
use moan_subs.Store.Metadata.Pins.{
  present, derive_metadata-Derived, derive_each-Derived, derive_work-Derived,
}
use moan_subs.Store.Metadata.Keeping.{
  Keeps, keeps_all, keeps_both, keeps_rows, keeps_works, derived_once,
}

-- The case *wa == *wb of LinkReleases, which returns before anything is derived.
abbrev pub same_work : Option ℕ → Option ℕ → Bool
same_work none w = false
same_work (some v) none = false
same_work (some v) (some w) = v == w

abbrev pub already_grouped : ℕ → ℕ → Db → Bool
already_grouped a b db = elim (find (is_release a) db.releases) [
  | none ↦ false
  | some ra ↦ elim (find (is_release b) db.releases) [
    | none ↦ false
    | some rb ↦ same_work ra.work_id rb.work_id
  ]
]

-- The releases, one taken out of its work.
abbrev pub remaining : ℕ → Db → List Release
remaining id db = update_where (is_release id) (set_work none) db.releases

abbrev pub dissolved_ids : ℕ → ℕ → Db → List ℕ
dissolved_ids w id db = map (λ (r : Release). r.id) (keep (in_work w) (remaining id db))

module _ (visit : List Candidate → List Candidate) where
  abbrev pub derive_linked : Bool → Db × ℕ → Result StoreError (Db × ℕ)
  derive_linked true (linked, w) = ok (linked, w)
  derive_linked false (linked, w) = derive_work visit w linked >>= λ derived. ok (derived, w)

  -- LinkReleases.
  unfoldable pub link_and_derive : ℕ → ℕ → Db → Result StoreError (Db × ℕ)
  link_and_derive a b db =
      link_releases a b db >>= λ linked. derive_linked (already_grouped a b db) linked

  -- The siblings of a work with two releases or more, else the last ones of a work that is dissolved.
  abbrev pub derive_siblings : ℕ → ℕ → Db → Db → Result StoreError Db
  derive_siblings w id db derived =
      if ltb (count (in_work w) (remaining id db)) 2
      then derive_each visit (dissolved_ids w id db) derived
      else derive_work visit w derived

  abbrev pub derive_unlinked : Option ℕ → ℕ → Db → Db → Result StoreError Db
  derive_unlinked none id db unlinked = ok unlinked
  derive_unlinked (some w) id db unlinked =
      derive_metadata visit id unlinked >>= λ derived. derive_siblings w id db derived

  -- UnlinkRelease.
  unfoldable pub unlink_and_derive : ℕ → Db → Result StoreError Db
  unlink_and_derive id db =
      found_release id db >>= λ r. derive_unlinked r.work_id id db (unlink_works r.work_id id db)
