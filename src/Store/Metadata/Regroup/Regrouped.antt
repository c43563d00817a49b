-- ===== src/Store/Metadata/Regroup/Regrouped.antt =====
-- internal/store/work.go: linking and unlinking keep the pins, with what is derived after them.
use moan_subs.Prelude.{
  ℕ, suc, ◌≡◌, ◌⊎◌, refl, sym, ◌∙◌, Bool, true, false, List, [], ◌∷◌, ◌++◌, Option, none, some, ltb,
  ◌==◌, any, find, keep, count, Bool-cases, Option-cases, inl, inr,
}
use moan_subs.Prelude.Result.{ok, err}
use moan_subs.Store.Table.{update_where, delete_where}
use moan_subs.Store.Table.Find.{any-find}
use moan_subs.Store.Table.Keep.{any-update_unseen, All-keep, All-map_rows}
use moan_subs.Store.Schema.{Db, Release, StoreError, not_found, self_link}
use moan_subs.Store.Releases.{is_release}
use moan_subs.Store.Works.{
  in_work, set_work, is_either, set_pair, merge_works, larger_work, link_works, link_releases,
  found_release, sibling_offset, dissolve, unlink_works, unlink_release,
}
use moan_subs.Store.Metadata.Derive.{Candidate, derive_metadata, derive_each, derive_work}
use moan_subs.Store.Metadata.Pins.{
  present, derive_metadata-Derived, derive_each-Derived, derive_work-Derived,
}
use moan_subs.Store.Metadata.Keeping.{
  Keeps, keeps_all, keeps_both, keeps_rows, keeps_works, derived_once,
}
use moan_subs.Store.Metadata.Regroup.{
  same_work, already_grouped, remaining, dissolved_ids, derive_linked, link_and_derive,
  derive_siblings, derive_unlinked, unlink_and_derive,
}

now_found :
    (id : ℕ) (db : Db) (r : Release)
    → find (is_release id) db.releases ≡ some r
    → found_release id db ≡ ok r
now_found id db r e = rw (e, found_release) refl

now_missing :
    (id : ℕ) (db : Db)
    → find (is_release id) db.releases ≡ none
    → found_release id db ≡ err not_found
now_missing id db e = rw (e, found_release) refl

now_grouped :
    (a b : ℕ) (db : Db) (ra rb : Release)
    → find (is_release a) db.releases ≡ some ra
    → find (is_release b) db.releases ≡ some rb
    → already_grouped a b db ≡ same_work ra.work_id rb.work_id
now_grouped a b db ra rb found_a found_b = rw (found_a, found_b, already_grouped) refl

link_works-Keeps : (v w : Option ℕ) (a b : ℕ) (db : Db) → Keeps db (link_works v w a b db).0
unfolding link_works
link_works-Keeps none none a b db =
    let added = record db { works = db.works ++ db.next_work ∷ []; next_work = suc db.next_work } in
    keeps_both db added (set_pair db.next_work a b added) (keeps_rows db added refl refl)
      (keeps_works (is_either a b) (some db.next_work) added)
link_works-Keeps (some v) none a b db = keeps_works (is_either a b) (some v) db
link_works-Keeps none (some w) a b db = keeps_works (is_either a b) (some w) db
link_works-Keeps (some v) (some w) a b db = elim (Bool-cases (v == w)) [
  | inl e ↦ rw e (keeps_all db)
  | inr e ↦ rw e (merged (larger_work v w db.releases).0 (larger_work v w db.releases).1)
]
  where
    merged : (kept dropped : ℕ) → Keeps db (set_pair kept a b (merge_works kept dropped db))
    merged kept dropped =
        let moved = record db {
          releases = update_where (in_work dropped) (set_work (some kept)) db.releases;
        } in
        let joined = merge_works kept dropped db in
        keeps_both db joined (set_pair kept a b joined)
          (keeps_both db moved joined (keeps_works (in_work dropped) (some kept) db)
            (keeps_rows moved joined refl refl))
          (keeps_works (is_either a b) (some kept) joined)

dissolve-Keeps : (w : ℕ) (db : Db) → Keeps db (dissolve w db)
dissolve-Keeps w db = elim (Bool-cases (ltb (count (in_work w) db.releases) 2)) [
  | inl e ↦
      let freed = record db { releases = update_where (in_work w) (set_work none) db.releases } in
      let retired = record freed { works = delete_where (λ x. x == w) db.works } in
      rw e (
        keeps_both db freed retired (keeps_works (in_work w) none db)
          (keeps_rows freed retired refl refl))
  | inr e ↦ rw e (keeps_all db)
]

unlink_works-Keeps : (w : Option ℕ) (id : ℕ) (db : Db) → Keeps db (unlink_works w id db)
unfolding unlink_works
unlink_works-Keeps none id db = keeps_all db
unlink_works-Keeps (some w) id db =
    let freed = record db { releases = remaining id db } in
    let taken = record freed { offsets = delete_where (sibling_offset id db.tracks) db.offsets } in
    keeps_both db taken (dissolve w taken)
      (keeps_both db freed taken (keeps_works (is_release id) none db)
        (keeps_rows freed taken refl refl))
      (dissolve-Keeps w taken)

module _ (visit : List Candidate → List Candidate) where
  linked_and_derived :
      (grouped : Bool) (db : Db) (linked : Db × ℕ)
      → Keeps db linked.0
      → (db' : Db) × (w : ℕ) × (derive_linked visit grouped linked ≡ ok (db', w)) × Keeps db db'
  linked_and_derived true db (linked, w) keeps = (linked, w, refl, keeps)
  linked_and_derived false db (linked, w) keeps =
      let (derived, e, again) =
        derived_once visit (derive_work visit w linked) linked
          (derive_work-Derived visit w linked) in
      (derived, w, rw e refl, keeps_both db linked derived keeps again)

  link_found :
      (a b : ℕ) (db : Db) (ra rb : Release)
      → (a == b) ≡ false
      → find (is_release a) db.releases ≡ some ra
      → find (is_release b) db.releases ≡ some rb
      → link_and_derive visit a b db
        ≡ derive_linked visit
            (same_work ra.work_id rb.work_id)
            (link_works ra.work_id rb.work_id a b db)
  unfolding link_and_derive link_releases
  link_found a b db ra rb apart found_a found_b = simp (
    apart,
    now_found a db ra found_a,
    now_found b db rb found_b,
    now_grouped a b db ra rb found_a found_b,
  )

  unlink_found :
      (id : ℕ) (db : Db) (r : Release)
      → find (is_release id) db.releases ≡ some r
      → unlink_and_derive visit id db
        ≡ derive_unlinked visit r.work_id id db (unlink_works r.work_id id db)
  unfolding unlink_and_derive unlink_release
  unlink_found id db r found = simp (now_found id db r found)

  -- Linking two releases that are there and differ succeeds, and keeps the pins.
  pub link_and_derive-Keeps :
      (a b : ℕ) (db : Db) (ra rb : Release)
      → (a == b) ≡ false
      → find (is_release a) db.releases ≡ some ra
      → find (is_release b) db.releases ≡ some rb
      → (db' : Db) × (w : ℕ) × (link_and_derive visit a b db ≡ ok (db', w)) × Keeps db db'
  link_and_derive-Keeps a b db ra rb apart found_a found_b =
      let (db', w, e, keeps) =
        linked_and_derived (same_work ra.work_id rb.work_id) db
          (link_works ra.work_id rb.work_id a b db)
          (link_works-Keeps ra.work_id rb.work_id a b db) in
      (db', w, link_found a b db ra rb apart found_a found_b ∙ e, keeps)

  siblings_derived :
      (w id : ℕ) (db derived : Db)
      → Keeps db derived
      → (db' : Db) × (derive_siblings visit w id db derived ≡ ok db') × Keeps db db'
  siblings_derived w id db derived (p, same, k, u) =
      elim (Bool-cases (ltb (count (in_work w) (remaining id db)) 2)) [
        | inl e ↦
            let there =
              All-map_rows (λ i. any (is_release i) derived.releases ≡ true) (λ (r : Release). r.id)
                (keep (in_work w) (remaining id db))
                (All-keep {Q = λ r. any (is_release r.id) derived.releases ≡ true} (in_work w)
                  (λ r x _. same r.id ∙ sym (left_there r.id) ∙ x) (remaining id db)
                  (present visit (remaining id db) (remaining id db) (λ q x. x))) in
            let (db', d, keeps) =
              derived_once visit (derive_each visit (dissolved_ids w id db) derived) derived
                (derive_each-Derived visit (dissolved_ids w id db) derived there) in
            (db', rw e d, keeps_both db derived db' (p, same, k, u) keeps)
        | inr e ↦
            let (db', d, keeps) =
              derived_once visit (derive_work visit w derived) derived
                (derive_work-Derived visit w derived) in
            (db', rw e d, keeps_both db derived db' (p, same, k, u) keeps)
      ]
    where
      left_there : (i : ℕ) → any (is_release i) (remaining id db) ≡ any (is_release i) db.releases
      left_there i =
          any-update_unseen (is_release i) (is_release id) (set_work none) (λ r. refl) db.releases

  unlinked_and_derived :
      (w : Option ℕ) (id : ℕ) (db unlinked : Db)
      → any (is_release id) db.releases ≡ true
      → Keeps db unlinked
      → (db' : Db) × (derive_unlinked visit w id db unlinked ≡ ok db') × Keeps db db'
  unlinked_and_derived none id db unlinked there keeps = (unlinked, refl, keeps)
  unlinked_and_derived (some w) id db unlinked there (p, same, k, u) =
      let (derived, e, again) =
        derived_once visit (derive_metadata visit id unlinked) unlinked
          (derive_metadata-Derived visit id unlinked (same id ∙ there)) in
      let (db', d, keeps) =
        siblings_derived w id db derived (keeps_both db unlinked derived (p, same, k, u) again) in
      (db', rw (e, d) refl, keeps)

  -- Unlinking a release that is there succeeds, and keeps the pins.
  pub unlink_and_derive-Keeps :
      (id : ℕ) (db : Db) (r : Release)
      → find (is_release id) db.releases ≡ some r
      → (db' : Db) × (unlink_and_derive visit id db ≡ ok db') × Keeps db db'
  unlink_and_derive-Keeps id db r found =
      let (db', e, keeps) =
        unlinked_and_derived r.work_id id db (unlink_works r.work_id id db)
          (any-find (is_release id) db.releases r found) (unlink_works-Keeps r.work_id id db) in
      (db', unlink_found id db r found ∙ e, keeps)

  -- Linking is refused, or succeeds and keeps the pins.
  pub link_and_derive_lem :
      (a b : ℕ) (db : Db)
      → ((e : StoreError) × (link_and_derive visit a b db ≡ err e))
        ⊎ ((db' : Db) × (w : ℕ) × (link_and_derive visit a b db ≡ ok (db', w)) × Keeps db db')
  unfolding link_and_derive link_releases
  link_and_derive_lem a b db = elim (Bool-cases (a == b)) [
    | inl same ↦ inl (self_link, rw same refl)
    | inr apart ↦ elim (Option-cases (find (is_release a) db.releases)) [
      | inl ea ↦ inl (not_found, simp (apart, now_missing a db ea))
      | inr (ra, fa) ↦ elim (Option-cases (find (is_release b) db.releases)) [
        | inl eb ↦ inl (not_found, simp (apart, now_found a db ra fa, now_missing b db eb))
        | inr (rb, fb) ↦ inr (link_and_derive-Keeps a b db ra rb apart fa fb)
      ]
    ]
  ]

  -- So is unlinking.
  pub unlink_and_derive_lem :
      (id : ℕ) (db : Db)
      → ((e : StoreError) × (unlink_and_derive visit id db ≡ err e))
        ⊎ ((db' : Db) × (unlink_and_derive visit id db ≡ ok db') × Keeps db db')
  unfolding unlink_and_derive unlink_release
  unlink_and_derive_lem id db = elim (Option-cases (find (is_release id) db.releases)) [
    | inl e ↦ inl (not_found, simp (now_missing id db e))
    | inr (r, found) ↦ inr (unlink_and_derive-Keeps id db r found)
  ]
