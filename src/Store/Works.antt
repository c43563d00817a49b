-- ===== src/Store/Works.antt =====
-- internal/store/work.go: releases grouped into works. What is derived again after a commit is
-- in Store.Metadata.Regroup.
pub mod Grouping
pub mod Pairs
pub mod Linking
use moan_subs.Prelude.{
  ℕ, suc, Bool, true, false, not, ◌&&◌, ◌||◌, List, [], ◌∷◌, ◌++◌, Option, none, some, ltb, ◌==◌,
  if◌then◌else◌, count, any, find,
}
use moan_subs.Prelude.Result.{Result, ok, err, guard, ◌>>=◌, ◌>>◌}
use moan_subs.Store.Table.{update_where, delete_where, is_id}
use moan_subs.Store.Releases.{is_release}
use moan_subs.Store.Schema.{Db, Release, Track, Offset, StoreError, not_found, self_link}

abbrev pub in_work : ℕ → Release → Bool
in_work w r = is_id w r.work_id

abbrev pub set_work : Option ℕ → Release → Release
set_work w r = record r { work_id = w }

abbrev pub is_either : ℕ → ℕ → Release → Bool
is_either a b r = is_release a r || is_release b r

-- The last UPDATE of LinkReleases: both releases get the work.
abbrev pub set_pair : ℕ → ℕ → ℕ → Db → Db
set_pair w a b db = record db {
  releases = update_where (is_either a b) (set_work (some w)) db.releases;
}

abbrev pub merge_works : ℕ → ℕ → Db → Db
merge_works kept dropped db = record db {
  releases = update_where (in_work dropped) (set_work (some kept)) db.releases;
  works = delete_where (λ w. w == dropped) db.works;
}

-- The work that is kept when two are merged: the larger, and the first one's when they are as large.
abbrev pub larger_work : ℕ → ℕ → List Release → ℕ × ℕ
larger_work v w releases =
    if ltb (count (in_work v) releases) (count (in_work w) releases) then (w, v) else (v, w)

-- The switch of LinkReleases on the works of the two releases.
unfoldable pub link_works : Option ℕ → Option ℕ → ℕ → ℕ → Db → Db × ℕ
link_works none none a b db =
    let w = db.next_work in
    (set_pair w a b (record db { works = db.works ++ w ∷ []; next_work = suc w }), w)
link_works (some v) none a b db = (set_pair v a b db, v)
link_works none (some w) a b db = (set_pair w a b db, w)
link_works (some v) (some w) a b db =
    if v == w
    then (db, v)
    else (let (kept, dropped) = larger_work v w db.releases in
        (set_pair kept a b (merge_works kept dropped db), kept))

abbrev pub found_release : ℕ → Db → Result StoreError Release
found_release id db = elim (find (is_release id) db.releases) [
  | none ↦ err not_found
  | some r ↦ ok r
]

-- LinkReleases. Both rows are locked in the order of their ids; a missing one is the same error.
unfoldable pub link_releases : ℕ → ℕ → Db → Result StoreError (Db × ℕ)
link_releases a b db = do
  guard (not (a == b)) self_link
  ra ← found_release a db
  rb ← found_release b db
  ok (link_works ra.work_id rb.work_id a b db)

abbrev pub sibling_offset : ℕ → List Track → Offset → Bool
sibling_offset id tracks o =
    o.release_id == id && any (λ t. t.id == o.track_id && not (t.release_id == id)) tracks

-- A work with fewer than two releases left is dissolved.
abbrev pub dissolve : ℕ → Db → Db
dissolve w db =
    if ltb (count (in_work w) db.releases) 2
    then record db {
      releases = update_where (in_work w) (set_work none) db.releases;
      works = delete_where (λ x. x == w) db.works;
    }
    else db

-- UnlinkRelease.
unfoldable pub unlink_works : Option ℕ → ℕ → Db → Db
unlink_works none id db = db
unlink_works (some w) id db = dissolve w (record db {
  releases = update_where (is_release id) (set_work none) db.releases;
  offsets = delete_where (sibling_offset id db.tracks) db.offsets;
})

unfoldable pub unlink_release : ℕ → Db → Result StoreError Db
unlink_release id db = found_release id db >>= λ r. ok (unlink_works r.work_id id db)
