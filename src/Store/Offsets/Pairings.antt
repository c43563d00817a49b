-- ===== src/Store/Offsets/Pairings.antt =====
-- internal/store/offset.go: the corrections as a table of (track, release) pairs, and which tracks are
-- shown beside a release.
use moan_subs.Prelude.{
  ℕ, ◌≡◌, ◌≢◌, refl, sym, ap, ◌∙◌, Bool, true, false, List, [], ◌∷◌, none, some, arith, ◌==◌, find,
  keep, map, count, ◌⊎◌, All, Bool-cases, inl, inr, ==_refl, ==_iff, length, length-map,
}
use moan_subs.Prelude.Int.{ℤ}
use moan_subs.Prelude.Result.{ok, err}
use moan_subs.Prelude.Text.{Text}
use moan_subs.Store.Table.{is_null}
use moan_subs.Store.Table.Upsert.{upsert_where, find-upsert, find-upsert_other}
use moan_subs.Store.Table.Find.{find-delete_self, find-delete_other}
use moan_subs.Store.Table.Keep.{All-keep, All-map_rows, count_nowhere}
use moan_subs.Store.Table.Order.{sort_by, sort_by-All, length-sorted}
use moan_subs.Store.Schema.{Db, Offset, Release, Track, not_found, or_not_found}
use moan_subs.Store.Tracks.{track_is_head}
use moan_subs.Store.Fits.{same_work}
use moan_subs.Store.Offsets.{
  valid_offset_source, is_offset, offset_row, offset_references, set_offset, clear_offset,
  get_offset, SiblingTrack, shows_sibling, join, sibling_row, newest_first, sibling_tracks,
}

-- What find gives for a key that a row's fields spell out.
upserted :
    (track release : ℕ) (offset_ms : ℤ) (source : Text) (rows : List Offset)
    → elim (find (is_offset track release) rows) [
      | none ↦ some (offset_row track release offset_ms source)
      | some o ↦ some (record o { offset_ms = offset_ms; source = source })
    ]
      ≡ some (offset_row track release offset_ms source)
upserted track release offset_ms source [] = refl
upserted track release offset_ms source (o ∷ rows) = elim (Bool-cases (is_offset track release o)) [
  | inl e ↦
      let a : o.track_id ≡ track = (==_iff o.track_id track).0 (ground arith) in
      let b : o.release_id ≡ release = (==_iff o.release_id release).0 (ground arith) in
      rw e (
        ap (λ (t : ℕ). some (offset_row t o.release_id offset_ms source)) a
        ∙ ap (λ (r : ℕ). some (offset_row track r offset_ms source)) b)
  | inr e ↦ rw e (upserted track release offset_ms source rows)
]

other_pairing :
    (track release t r : ℕ) (o : Offset)
    → (t ≢ track) ⊎ (r ≢ release)
    → is_offset track release o ≡ true
    → is_offset t r o ≡ false
other_pairing track release t r o (inl ne) h = ground arith
other_pairing track release t r o (inr ne) h = ground arith

-- Setting a correction with a recognised source, for an existing track and release, succeeds and is what is
-- then read for the pair, whether there was one or not; clearing it leaves none; neither changes what is
-- read for another pair.
pub get-set_offset :
    (track release : ℕ) (offset_ms : ℤ) (source : Text) (db : Db)
    → valid_offset_source source ≡ true
    → offset_references track release db ≡ true
    → (db' : Db) × (set_offset track release offset_ms source db ≡ ok db')
      × (get_offset track release db' ≡ ok (offset_row track release offset_ms source))
      × (get_offset track release (clear_offset track release db') ≡ err not_found)
      × ((t r : ℕ)
          → (t ≢ track) ⊎ (r ≢ release)
          → (get_offset t r db' ≡ get_offset t r db)
            × (get_offset t r (clear_offset track release db') ≡ get_offset t r db))
unfolding set_offset get_offset clear_offset
get-set_offset track release offset_ms source db valid present =
    let p = is_offset track release in
    let new = offset_row track release offset_ms source in
    let offsets =
      upsert_where p (λ o. record o { offset_ms = offset_ms; source = source }) new db.offsets in
    let own : p new ≡ true = ground (arith, ==_refl track, ==_refl release) in
    let read : find p offsets ≡ some new =
      find-upsert p _ new db.offsets (λ o h. h) own
      ∙ upserted track release offset_ms source db.offsets in
    let unchanged : (t r : ℕ)
        → (t ≢ track) ⊎ (r ≢ release)
        → find (is_offset t r) offsets ≡ find (is_offset t r) db.offsets =
      λ t r ne.
        find-upsert_other (is_offset t r) p _ new db.offsets
          (λ o h. let miss = other_pairing track release t r o ne h in (miss, miss))
          (other_pairing track release t r new ne own) in
    (
      record db { offsets = offsets },
      rw (valid, present),
      ap or_not_found read,
      ap or_not_found (find-delete_self p offsets),
      λ t r ne. (
        ap or_not_found (unchanged t r ne),
        ap or_not_found (
            find-delete_other p (is_offset t r) (λ o h. other_pairing track release t r o ne h)
              offsets
            ∙ unchanged t r ne),
      ),
    )

abbrev pub IsShown : Db → Release → SiblingTrack → Type 0
IsShown db self s =
    (s.track.release_id ≡ s.home.id)
    × (same_work self.work_id s.home.work_id ≡ true)
    × (s.home.id ≢ self.id)
    × (is_null s.home.withdrawn_at ≡ true)
    × (track_is_head s.track db.tracks ≡ true)
    × (s.correction ≡ find (is_offset s.track.id self.id) db.offsets)

IsShown-row :
    (db : Db) (self : Release) (release : ℕ) (t : Track) (sib : Release)
    → self.id ≡ release
    → shows_sibling db self (t, sib) ≡ true
    → IsShown db self (sibling_row db release (t, sib))
IsShown-row db self release t sib e h =
    let linked : t.release_id ≡ sib.id = (==_iff t.release_id sib.id).0 (ground arith) in
    (
      linked,
      ground arith,
      λ same_release. ground (arith, (==_iff sib.id self.id).1 same_release),
      ground arith,
      ground arith,
      ap (λ (r : ℕ). find (is_offset t.id r) db.offsets) (sym e),
    )

no_sibling :
    (db : Db) (self : Release) (t : Track) (sib : Release)
    → self.work_id ≡ none
    → shows_sibling db self (t, sib) ≡ false
no_sibling db self t sib e = rw e (ground arith)

All-refl {ℓ} : {A : Type ℓ} (rows : List A) → All (λ r. r ≡ r) rows
All-refl [] = tt
All-refl (r ∷ rows) = (refl, All-refl rows)

find-passes {ℓ} :
    {A : Type ℓ} (p : A → Bool) (rows : List A) (s : A) → find p rows ≡ some s → p s ≡ true
find-passes p [] s h = absurd (cc)
find-passes p (r ∷ rows) s h = elim (Bool-cases (p r)) [
  | inl e ↦ let same_row : r ≡ s = cc (rw e at h) in rw (sym same_row) e
  | inr e ↦ find-passes p rows s (rw e at h)
]

-- What is shown beside a release is a head of a live release of the same work and never of the release
-- itself, with the correction that is recorded for the pair. There are as many of
-- them as there are such pairs of a track and its release, and none beside a release without a work.
pub sibling_tracks-IsShown :
    (release : ℕ) (self : Release) (db : Db)
    → find (λ r. r.id == release) db.releases ≡ some self
    → All (IsShown db self) (sibling_tracks release db)
      × (length (sibling_tracks release db)
          ≡ count (shows_sibling db self) (join db.tracks db.releases))
      × (self.work_id ≡ none → length (sibling_tracks release db) ≡ 0)
unfolding sibling_tracks
sibling_tracks-IsShown release self db found =
    let p = shows_sibling db self in
    let pairs = keep p (join db.tracks db.releases) in
    let named : self.id ≡ release =
      (==_iff self.id release).0 (find-passes (λ r. r.id == release) db.releases self found) in
    let total : length (map (sibling_row db release) (sort_by newest_first pairs))
        ≡ count p (join db.tracks db.releases) =
      length-map (sibling_row db release) (sort_by newest_first pairs)
      ∙ length-sorted newest_first p (join db.tracks db.releases) in
    rw (found, sibling_tracks)
      (
        All-map_rows (IsShown db self) (sibling_row db release) (sort_by newest_first pairs) (
            sort_by-All _ newest_first pairs (
              All-keep p (λ (t, sib) _ h. IsShown-row db self release t sib named h)
                (join db.tracks db.releases) (All-refl _))),
        total,
        λ ungrouped.
            total
            ∙ count_nowhere p (λ (t, sib). no_sibling db self t sib ungrouped)
                (join db.tracks db.releases),
      )
