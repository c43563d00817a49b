-- ===== src/Store/Releases/Creation.antt =====
-- internal/store/release.go: what GetOrCreateRelease finds or makes.
use moan_subs.Prelude.{
  ◌≤◌, ◌≡◌, refl, sym, ap, ◌∙◌, Bool, true, false, List, [], ◌∷◌, Option, none, some, arith,
  if◌then◌else◌, any, find, count, Bool-cases, inl, inr, count-append,
}
use moan_subs.Prelude.Result.{Result, ok, ◌>>=◌}
use moan_subs.Prelude.Text.{Text, text_eq, text_eq_refl, eq-text_eq}
use moan_subs.Store.Table.{update_where, is_null, count-update_where, update-update}
use moan_subs.Store.Table.Upsert.{count-none, count-some, find-update, find-update_other}
use moan_subs.Store.Table.Find.{
  any-find, find-append_right, find-append_miss, any-found, find-none, any-append_last,
}
use moan_subs.Store.Schema.{Db, Release, StoreError}
use moan_subs.Store.Releases.Lookup.{
  NewRelease, release_row, has_oshash, work_exists, append_release, file_facts, insert_release_once,
  lacks_stem, backfill_stem, get_release_by_oshash_any, get_or_create_release,
}

-- The stem that a row has, or else the one that is offered.
abbrev pub with_stem : Option Text → Release → Release
with_stem none r = r
with_stem (some stem) r = if is_null r.stem then record r { stem = some stem } else r

update_where_id {ℓ} :
    {A : Type ℓ} (p : A → Bool) (rows : List A) → update_where p (λ r. r) rows ≡ rows
update_where_id p [] = refl
update_where_id p (r ∷ rows) = ground (arith, update_where_id p rows)

fill-stems :
    (h stem : Text) (rows : List Release)
    → update_where (lacks_stem h) (λ r. record r { stem = some stem }) rows
      ≡ update_where (has_oshash h) (with_stem (some stem)) rows
fill-stems h stem [] = refl
fill-stems h stem (r ∷ rows) = elim (Bool-cases (has_oshash h r)) [
  | inl e ↦ rw (e, fill-stems h stem rows) refl
  | inr e ↦ rw (e, fill-stems h stem rows) refl
]

backfill_stem-eq :
    (h : Text) (stem : Option Text) (db : Db)
    → backfill_stem h stem db
      ≡ record db { releases = update_where (has_oshash h) (with_stem stem) db.releases }
unfolding backfill_stem
backfill_stem-eq h none db =
    ap (λ (rows : List Release). record db { releases = rows })
      (sym (update_where_id (has_oshash h) db.releases))
backfill_stem-eq h (some stem) db =
    ap (λ (rows : List Release). record db { releases = rows }) (fill-stems h stem db.releases)

with_stem-oshash :
    (h : Text) (stem : Option Text) (r : Release) → has_oshash h (with_stem stem r) ≡ has_oshash h r
with_stem-oshash h none r = refl
with_stem-oshash h (some stem) r = ground arith

with_stem_idem :
    (stem : Option Text) (r : Release) → with_stem stem (with_stem stem r) ≡ with_stem stem r
with_stem_idem none r = refl
with_stem_idem (some stem) r = elim (Bool-cases (is_null r.stem)) [
  | inl e ↦ rw e refl
  | inr e ↦ rw (e, e) refl
]

-- The row under the hash that is there, or else the one that is made.
abbrev pub fetched : NewRelease → Db → Release
fetched r db = elim (find (has_oshash r.oshash) db.releases) [
  | none ↦ release_row (file_facts r) db.next_release
  | some old ↦ old
]

fetched_found :
    (r : NewRelease) (db : Db) (old : Release)
    → find (has_oshash r.oshash) db.releases ≡ some old
    → fetched r db ≡ old
fetched_found r db old e = rw (e, fetched) refl

fetched_new :
    (r : NewRelease) (db : Db)
    → find (has_oshash r.oshash) db.releases ≡ none
    → fetched r db ≡ release_row (file_facts r) db.next_release
fetched_new r db e = rw (e, fetched) refl

-- The table after the insertion has a row with the hash, one if there was at most one.
inserted-row :
    (r : NewRelease) (db : Db)
    → work_exists r.work_id db.works ≡ true
    → count (has_oshash r.oshash) db.releases ≤ 1
    → (inserted : Db) × (insert_release_once r db ≡ ok inserted)
      × (any (has_oshash r.oshash) inserted.releases ≡ true)
      × (count (has_oshash r.oshash) inserted.releases ≡ 1)
      × (find (has_oshash r.oshash) inserted.releases ≡ some (fetched r db))
      × ((h : Text)
          → text_eq r.oshash h ≡ false
          → find (has_oshash h) inserted.releases ≡ find (has_oshash h) db.releases)
unfolding insert_release_once
inserted-row r db exists one =
    let p = has_oshash r.oshash in
    let row = release_row (file_facts r) db.next_release in
    elim (Bool-cases (any p db.releases)) [
      | inl e ↦
          let (old, found) = any-found p db.releases e in
          (
            db,
            rw e,
            e,
            omega (arith, count-some p db.releases e),
            found ∙ ap (λ (o : Release). some o) (sym (fetched_found r db old found)),
            λ h other. refl,
          )
      | inr e ↦
          let absent : find p db.releases ≡ none = find-none p db.releases e in
          (
            append_release (file_facts r) db,
            rw (e, exists),
            any-append_last p db.releases row (text_eq_refl r.oshash),
            rw (count-append p db.releases (row ∷ []), text_eq_refl r.oshash)
                (omega (arith, count-none p db.releases e)),
            find-append_right p db.releases row e (text_eq_refl r.oshash)
                ∙ ap (λ (o : Release). some o) (sym (fetched_new r db absent)),
            λ h other. find-append_miss (has_oshash h) db.releases row other,
          )
    ]

find-update_found {ℓ} :
    {A : Type ℓ} (p : A → Bool) (f : A → A) (rows : List A) (r : A)
    → ((s : A) → p s ≡ true → p (f s) ≡ true)
    → find p rows ≡ some r
    → find p (update_where p f rows) ≡ some (f r)
find-update_found p f rows r hit found =
    let (s, a, b) = find-update p f hit rows (any-find p rows r found) in
    let same_row : s ≡ r = cc in b ∙ ap (λ t. some (f t)) same_row

-- The database with the stem recorded.
abbrev pub settled : NewRelease → Db → Db
settled r db = record db {
  releases = update_where (has_oshash r.oshash) (with_stem r.stem) db.releases;
}

stays_hit :
    (h : Text) (stem : Option Text) (s : Release)
    → has_oshash h s ≡ true
    → has_oshash h (with_stem stem s) ≡ true
stays_hit h stem s e = with_stem-oshash h stem s ∙ e

abbrev finish : NewRelease → Db → Result StoreError (Db × Release)
finish r inserted = do
  let stored = backfill_stem r.oshash r.stem inserted
  found ← get_release_by_oshash_any r.oshash stored
  ok (stored, found)

finish-eq :
    (r : NewRelease) (inserted : Db) (row : Release)
    → find (has_oshash r.oshash) inserted.releases ≡ some row
    → finish r inserted ≡ ok (settled r inserted, with_stem r.stem row)
unfolding get_release_by_oshash_any
finish-eq r inserted row found =
    rw
      (
        backfill_stem-eq r.oshash r.stem inserted,
        find-update_found (has_oshash r.oshash) (with_stem r.stem) inserted.releases row
            (stays_hit r.oshash r.stem) found,
      )
      refl

other_oshash :
    (h g : Text) (stem : Option Text) (s : Release)
    → text_eq h g ≡ false
    → has_oshash h s ≡ true
    → (has_oshash g s ≡ false) × (has_oshash g (with_stem stem s) ≡ false)
other_oshash h g stem s ne e =
    let miss : has_oshash g s ≡ false =
      ap (λ (o : Text). text_eq o g) (eq-text_eq s.oshash h e) ∙ ne in
    (miss, with_stem-oshash g stem s ∙ miss)

-- For a release of an existing work or of none, where at most one row has its hash, the call succeeds. It
-- returns the row that is then under the hash, the only one: the row that was there, or one made from what
-- was handed over, with the stem handed over if it had none. Rows under other hashes are found as before,
-- and the same call again returns the same and changes nothing.
pub get_or_create_release_lem :
    (r : NewRelease) (db : Db)
    → work_exists r.work_id db.works ≡ true
    → count (has_oshash r.oshash) db.releases ≤ 1
    → let row = with_stem r.stem (fetched r db) in
      (db' : Db) × (get_or_create_release r db ≡ ok (db', row))
      × (find (has_oshash r.oshash) db'.releases ≡ some row)
      × (count (has_oshash r.oshash) db'.releases ≡ 1)
      × ((h : Text)
          → text_eq r.oshash h ≡ false
          → find (has_oshash h) db'.releases ≡ find (has_oshash h) db.releases)
      × (get_or_create_release r db' ≡ ok (db', row))
unfolding get_or_create_release insert_release_once
get_or_create_release_lem r db exists one =
    let p = has_oshash r.oshash in
    let f = with_stem r.stem in
    let (inserted, e, there, single, found, others) = inserted-row r db exists one in
    let db' = settled r inserted in
    let row = fetched r db in
    let found' : find p db'.releases ≡ some (f row) =
      find-update_found p f inserted.releases row (stays_hit r.oshash r.stem) found in
    let settled_twice : settled r db' ≡ db' =
      ap (λ (rows : List Release). record inserted { releases = rows })
        (update-update p f f (λ s h. (stays_hit r.oshash r.stem s h, with_stem_idem r.stem s))
          inserted.releases) in
    (
      db',
      ap (λ (m : Result StoreError Db). m >>= finish r) e ∙ finish-eq r inserted row found,
      found',
      count-update_where p p f (λ s h. with_stem-oshash r.oshash r.stem s) inserted.releases
          ∙ single,
      λ h other.
          find-update_other (has_oshash h) p f (λ s hit. other_oshash r.oshash h r.stem s other hit)
            inserted.releases
          ∙ others h other,
      rw (any-find p db'.releases (f row) found') (
          finish-eq r db' (f row) found'
          ∙ ap (λ (s : Db × Release). ok s)
              (ap (λ (d : Db). (d, f (f row))) settled_twice
                ∙ ap (λ (x : Release). (db', x)) (with_stem_idem r.stem row))),
    )
