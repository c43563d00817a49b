-- ===== src/Store/Works/Grouping.antt =====
-- internal/store/work.go: no work is left with a single release. The counts of moved releases, and
-- UnlinkRelease.
use moan_subs.Prelude.{
  ℕ, ◌≤◌, ◌≡◌, ◌≢◌, refl, ap, Bool, true, false, List, [], ◌∷◌, Option, none, some, arith, ltb,
  count, find, All, Bool-cases, inl, inr,
}
use native.Mathlib.Decide.{ℕ_discrete}
use moan_subs.Prelude.Result.{Result, ok, ◌>>=◌}
use moan_subs.Store.Table.{update_where, delete_where, is_id, All-map, All-update_where}
use moan_subs.Store.Table.Max.{find_unique}
use moan_subs.Store.Schema.{Db, Release, StoreError}
use moan_subs.Store.Releases.{is_release}
use moan_subs.Store.Works.{
  in_work, set_work, dissolve, unlink_works, found_release, unlink_release, sibling_offset,
}

-- No work has exactly one release.
abbrev pub IsGrouped : List Release → Type 0
IsGrouped releases = (w : ℕ) → count (in_work w) releases ≢ 1

-- Ids are unique.
abbrev pub HasKeys : List Release → Type 0
HasKeys releases = (id : ℕ) → count (is_release id) releases ≤ 1

-- An update to another work does not change how many releases a work has, if it moves none of them.
pub count-moved_elsewhere :
    (x : ℕ) (p : Release → Bool) (to : Option ℕ) (releases : List Release)
    → is_id x to ≡ false
    → All (λ r. p r ≡ true → in_work x r ≡ false) releases
    → count (in_work x) (update_where p (set_work to) releases) ≡ count (in_work x) releases
count-moved_elsewhere x p to [] ne h = refl
count-moved_elsewhere x p to (r ∷ releases) ne (h, hs) = elim (Bool-cases (p r)) [
  | inl e ↦ let miss = h e in rw (e, ne, miss, count-moved_elsewhere x p to releases ne hs) refl
  | inr e ↦ rw (e, count-moved_elsewhere x p to releases ne hs) refl
]

-- Moving all releases of a work away leaves none in it.
pub count-emptied :
    (x : ℕ) (to : Option ℕ) (releases : List Release)
    → is_id x to ≡ false
    → count (in_work x) (update_where (in_work x) (set_work to) releases) ≡ 0
count-emptied x to [] ne = refl
count-emptied x to (r ∷ releases) ne = elim (Bool-cases (in_work x r)) [
  | inl e ↦ rw (e, ne) (count-emptied x to releases ne)
  | inr e ↦ rw (e, e) (count-emptied x to releases ne)
]

pub All-pointwise {κ} :
    (P : Release → Type κ) → ((r : Release) → P r) → (releases : List Release) → All P releases
All-pointwise P h [] = tt
All-pointwise P h (r ∷ releases) = (h r, All-pointwise P h releases)

pub in_one_work : (x w : ℕ) → x ≢ w → (r : Release) → in_work w r ≡ true → in_work x r ≡ false
in_one_work x w ne r h = ground arith

-- The other works are as they were when one work's releases move.
pub count-emptied_other :
    (x w : ℕ) (to : Option ℕ) (releases : List Release)
    → x ≢ w
    → is_id x to ≡ false
    → count (in_work x) (update_where (in_work w) (set_work to) releases)
      ≡ count (in_work x) releases
count-emptied_other x w to releases ne miss =
    count-moved_elsewhere x (in_work w) to releases miss
      (All-pointwise (λ r. in_work w r ≡ true → in_work x r ≡ false) (in_one_work x w ne) releases)

-- All releases that are moved to a work are in it.
pub count-moved_le :
    (x : ℕ) (p : Release → Bool) (releases : List Release)
    → count p releases ≤ count (in_work x) (update_where p (set_work (some x)) releases)
count-moved_le x p [] = omega arith
count-moved_le x p (r ∷ releases) = elim (Bool-cases (p r)) [
  | inl e ↦ rw e (ground (arith, count-moved_le x p releases))
  | inr e ↦ rw e (ground (arith, count-moved_le x p releases))
]

pub work_of_key :
    (id : ℕ) (releases : List Release) (r : Release)
    → HasKeys releases
    → find (is_release id) releases ≡ some r
    → All (λ s. is_release id s ≡ true → s.work_id ≡ r.work_id) releases
work_of_key id releases r keys found =
    All-map (λ s h e. ap (λ (t : Release). t.work_id) (h e)) releases
      (find_unique (is_release id) releases r (keys id) found)

unlink_other :
    (x w id : ℕ) (releases : List Release)
    → x ≢ w
    → All (λ s. is_release id s ≡ true → s.work_id ≡ some w) releases
    → count (in_work x) (update_where (is_release id) (set_work none) releases)
      ≡ count (in_work x) releases
unlink_other x w id releases ne h =
    count-moved_elsewhere x (is_release id) none releases refl
      (All-map (λ s here e. rw (here e) (ground arith)) releases h)

dissolve-IsGrouped :
    (w : ℕ) (db : Db)
    → ((x : ℕ) → x ≢ w → count (in_work x) db.releases ≢ 1)
    → IsGrouped (dissolve w db).releases
dissolve-IsGrouped w db h x = elim (Bool-cases (ltb (count (in_work w) db.releases) 2)) [
  | inl e ↦ elim (ℕ_discrete x w) [
    | yes same ↦ rw (e, same) (λ one. absurd (omega (arith, count-emptied w none db.releases refl)))
    | no ne ↦ rw (e, count-emptied_other x w none db.releases ne refl) (h x ne)
  ]
  | inr e ↦ elim (ℕ_discrete x w) [
    | yes same ↦ rw (e, same) (λ one. absurd (ground arith))
    | no ne ↦ rw e (h x ne)
  ]
]

Out : ℕ → Release → Type 0
Out id r = is_release id r ≡ true → r.work_id ≡ none

dissolve-Out :
    (id w : ℕ) (db : Db) → All (Out id) db.releases → All (Out id) (dissolve w db).releases
unfolding Out
dissolve-Out id w db h = elim (Bool-cases (ltb (count (in_work w) db.releases) 2)) [
  | inl e ↦ rw e (
      All-update_where {P = Out id} {Q = Out id} (in_work w) (set_work none) (λ r _ _ _. refl)
        (λ r out _. out) db.releases h)
  | inr e ↦ rw e h
]

unlink_works-Out :
    (id : ℕ) (db : Db) (w : Option ℕ)
    → All (λ s. is_release id s ≡ true → s.work_id ≡ w) db.releases
    → All (Out id) (unlink_works w id db).releases
unfolding unlink_works Out
unlink_works-Out id db none h = h
unlink_works-Out id db (some w) h =
    dissolve-Out id w
      (record db {
        releases = update_where (is_release id) (set_work none) db.releases;
        offsets = delete_where (sibling_offset id db.tracks) db.offsets;
      })
      (All-update_where {P = λ s. is_release id s ≡ true → s.work_id ≡ some w} {Q = Out id}
        (is_release id) (set_work none) (λ r _ _ _. refl) (λ r _ miss e. absurd (cc)) db.releases h)

unlink_works-IsGrouped :
    (id : ℕ) (db : Db) (w : Option ℕ)
    → IsGrouped db.releases
    → All (λ s. is_release id s ≡ true → s.work_id ≡ w) db.releases
    → IsGrouped (unlink_works w id db).releases
unfolding unlink_works
unlink_works-IsGrouped id db none grouped h = grouped
unlink_works-IsGrouped id db (some w) grouped h =
    dissolve-IsGrouped w
      (record db {
        releases = update_where (is_release id) (set_work none) db.releases;
        offsets = delete_where (sibling_offset id db.tracks) db.offsets;
      })
      (λ x ne. rw (unlink_other x w id db.releases ne h) (grouped x))

pub found :
    (id : ℕ) (db : Db) (r : Release)
    → find (is_release id) db.releases ≡ some r
    → found_release id db ≡ ok r
found id db r e = rw (e, found_release) refl

-- Unlinking a release that exists takes it out of its work, and leaves no work with a single release,
-- if there was none. (Ids are unique.)
pub unlink_release-IsGrouped :
    (id : ℕ) (db : Db) (r : Release)
    → HasKeys db.releases
    → IsGrouped db.releases
    → find (is_release id) db.releases ≡ some r
    → (db' : Db) × (unlink_release id db ≡ ok db')
      × All (λ s. is_release id s ≡ true → s.work_id ≡ none) db'.releases
      × IsGrouped db'.releases
unfolding unlink_release Out
unlink_release-IsGrouped id db r keys grouped e =
    let same = work_of_key id db.releases r keys e in
    (
      unlink_works r.work_id id db,
      ap (λ (m : Result StoreError Release). m >>= λ s. ok (unlink_works s.work_id id db))
          (found id db r e),
      unlink_works-Out id db r.work_id same,
      unlink_works-IsGrouped id db r.work_id grouped same,
    )
