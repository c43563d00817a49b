-- ===== src/Store/Works/Linking.antt =====
-- internal/store/work.go: LinkReleases puts two releases in one work.
use moan_subs.Prelude.{
  ℕ, ◌≤◌, ◌≡◌, ◌≢◌, refl, ap, sym, ◌∙◌, true, false, Option, none, some, arith, ltb, ◌==◌, count,
  find, All, inl, inr, ==_iff, ◌⊎◌,
}
use moan_subs.Prelude.Result.{Result, ok, ◌>>=◌}
use moan_subs.Store.Schema.{Db, Release, StoreError}
use moan_subs.Store.Releases.{is_release}
use moan_subs.Store.Works.{
  in_work, is_either, set_pair, merge_works, larger_work, link_works, found_release, link_releases,
}
use moan_subs.Store.Works.Grouping.{IsGrouped, HasKeys, work_of_key, found}
use moan_subs.Store.Works.Pairs.{
  Linked, count-either, any-find, set_pair-Linked, set_pair-IsGrouped, merge-IsGrouped, Known,
  both-Known, apart, either_way, elsewhere,
}

module _ (a b : ℕ) (db : Db) (two : 2 ≤ count (is_either a b) db.releases)
    (grouped : IsGrouped db.releases) where
  link_works_lem :
      (wa wb : Option ℕ)
      → Known a wa db.releases
      → Known b wb db.releases
      → let (db', w) = link_works wa wb a b db in
        All (Linked a b w) db'.releases × IsGrouped db'.releases
  unfolding link_works
  link_works_lem none none ka kb =
      let w = db.next_work in
      (
        set_pair-Linked w a b db,
        set_pair-IsGrouped w a b db two
            (apart a b w none none db.releases (λ x _. refl) (λ x _. refl) ka kb)
            (λ x _. grouped x),
      )
  link_works_lem (some v) none ka kb = (
    set_pair-Linked v a b db,
    set_pair-IsGrouped v a b db two
        (apart a b v (some v) none db.releases (elsewhere v) (λ x _. refl) ka kb)
        (λ x _. grouped x),
  )
  link_works_lem none (some w) ka kb = (
    set_pair-Linked w a b db,
    set_pair-IsGrouped w a b db two
        (apart a b w none (some w) db.releases (λ x _. refl) (elsewhere w) ka kb)
        (λ x _. grouped x),
  )
  link_works_lem (some v) (some w) ka kb =
      either_way (v == w) (db, v)
        (let (kept, dropped) = larger_work v w db.releases in
          (set_pair kept a b (merge_works kept dropped db), kept))
        (λ (p : Db × ℕ). All (Linked a b p.1) p.0.releases × IsGrouped p.0.releases)
        (λ same. (
          both-Known a b (some v) (some w) (λ o. o ≡ some v) db.releases refl
              (ap some (sym ((==_iff v w).0 same))) ka kb,
          grouped,
        ))
        (λ differ.
          let ne : v ≢ w = λ same. absurd (cc (differ, (==_iff v w).1 same)) in
          either_way (ltb (count (in_work v) db.releases) (count (in_work w) db.releases)) (w, v)
            (v, w)
            (λ (m : ℕ × ℕ).
              All (Linked a b m.0) (set_pair m.0 a b (merge_works m.0 m.1 db)).releases
              × IsGrouped (set_pair m.0 a b (merge_works m.0 m.1 db)).releases)
            (λ _. (
              set_pair-Linked w a b (merge_works w v db),
              merge-IsGrouped w v a b db (λ same. ne (sym same)) two
                  (both-Known a b (some v) (some w) (λ o. (o ≡ some w) ⊎ (o ≡ some v)) db.releases
                    (inr refl) (inl refl) ka kb)
                  grouped,
            ))
            (λ _. (
              set_pair-Linked v a b (merge_works v w db),
              merge-IsGrouped v w a b db ne two
                  (both-Known a b (some v) (some w) (λ o. (o ≡ some v) ⊎ (o ≡ some w)) db.releases
                    (inl refl) (inr refl) ka kb)
                  grouped,
            )))

ne_test : (a b : ℕ) → a ≢ b → (a == b) ≡ false
ne_test a b ne = ground arith

-- Two releases that exist and differ can be linked. Both then stand in the work that is returned, and
-- no work has a single release, if none had. (Ids are unique.)
pub link_releases-IsGrouped :
    (a b : ℕ) (db : Db) (ra rb : Release)
    → a ≢ b
    → HasKeys db.releases
    → IsGrouped db.releases
    → find (is_release a) db.releases ≡ some ra
    → find (is_release b) db.releases ≡ some rb
    → (db' : Db) × (w : ℕ) × (link_releases a b db ≡ ok (db', w))
      × All (λ r. is_either a b r ≡ true → r.work_id ≡ some w) db'.releases
      × IsGrouped db'.releases
unfolding link_releases
link_releases-IsGrouped a b db ra rb ne keys grouped ea eb =
    let two : 2 ≤ count (is_either a b) db.releases = omega (
      arith,
      count-either a b ne db.releases,
      any-find a db.releases ea,
      any-find b db.releases eb,
    ) in
    let (linked, groups) =
      link_works_lem a b db two grouped ra.work_id rb.work_id (work_of_key a db.releases ra keys ea)
        (work_of_key b db.releases rb keys eb) in
    (
      (link_works ra.work_id rb.work_id a b db).0,
      (link_works ra.work_id rb.work_id a b db).1,
      rw (ne_test a b ne) (
          ap
            (λ (m : Result StoreError Release). m >>= λ (r : Release).
              found_release b db >>= λ (s : Release). ok (link_works r.work_id s.work_id a b db))
            (found a db ra ea)
          ∙ ap
              (λ (m : Result StoreError Release).
                m >>= λ (s : Release). ok (link_works ra.work_id s.work_id a b db))
              (found b db rb eb)),
      linked,
      groups,
    )
