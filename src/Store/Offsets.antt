-- ===== src/Store/Offsets.antt =====
-- internal/store/offset.go: the timing correction of a track against a release of the same work, and the
-- tracks of the sibling releases.
pub mod Pairings
use moan_subs.Prelude.{
  ℕ, Bool, true, false, not, ◌&&◌, ◌||◌, List, [], ◌∷◌, ◌++◌, Option, none, some, leb, ◌==◌,
  if◌then◌else◌, any, find, keep, map,
}
use moan_subs.Prelude.Int.{ℤ}
use moan_subs.Prelude.Result.{Result, ok, err, guard, ◌>>=◌, ◌>>◌}
use moan_subs.Prelude.Text.{Text, codes, text_eq}
use moan_subs.Store.Table.{delete_where, is_null, is_id}
use moan_subs.Store.Table.Upsert.{upsert_where}
use moan_subs.Store.Table.Order.{sort_by}
use moan_subs.Store.Schema.{
  Db, Offset, Release, Track, StoreError, not_found, foreign_key, unknown_source, or_not_found,
}
use moan_subs.Store.Tracks.{track_is_head}
use moan_subs.Store.Fits.{FitCounts, recompute_fit_counts, same_work}

abbrev pub offset_manual : Text
offset_manual = codes "manual"

abbrev pub offset_duration_delta : Text
offset_duration_delta = codes "duration-delta"

abbrev pub offset_measured : Text
offset_measured = codes "measured"

-- ValidOffsetSource.
unfoldable pub valid_offset_source : Text → Bool
valid_offset_source s =
    text_eq s offset_manual || text_eq s offset_duration_delta || text_eq s offset_measured

abbrev pub is_offset : ℕ → ℕ → Offset → Bool
is_offset track release o = o.track_id == track && o.release_id == release

abbrev pub offset_row : ℕ → ℕ → ℤ → Text → Offset
offset_row track release offset_ms source = record {
  track_id = track;
  release_id = release;
  offset_ms = offset_ms;
  source = source;
}

abbrev pub offset_references : ℕ → ℕ → Db → Bool
offset_references track release db =
    any (λ t. t.id == track) db.tracks && any (λ r. r.id == release) db.releases

-- SetOffset: INSERT … ON CONFLICT (track_id, release_id) DO UPDATE.
unfoldable pub set_offset : ℕ → ℕ → ℤ → Text → Db → Result StoreError Db
set_offset track release offset_ms source db = do
  guard (valid_offset_source source) unknown_source
  guard (offset_references track release db) foreign_key
  ok (record db {
    offsets =
        upsert_where (is_offset track release)
          (λ o. record o { offset_ms = offset_ms; source = source })
          (offset_row track release offset_ms source) db.offsets;
  })

-- ClearOffset.
unfoldable pub clear_offset : ℕ → ℕ → Db → Db
clear_offset track release db = record db {
  offsets = delete_where (is_offset track release) db.offsets;
}

-- Offset.
unfoldable pub get_offset : ℕ → ℕ → Db → Result StoreError Offset
get_offset track release db = or_not_found (find (is_offset track release) db.offsets)

-- SiblingTrack: a track, the release that it belongs to, and what is known of it against the other one.
pub record SiblingTrack : Type 0 where
  pub track : Track
  pub home : Release
  pub correction : Option Offset
  pub counts : FitCounts

abbrev pub is_sibling : Release → Release → Bool
is_sibling self sib = same_work self.work_id sib.work_id && not (sib.id == self.id)

abbrev pub shows_sibling : Db → Release → Track × Release → Bool
shows_sibling db self (t, sib) =
    t.release_id == sib.id
    && is_sibling self sib
    && is_null sib.withdrawn_at
    && track_is_head t db.tracks

-- The pairs of a join, in the order of the first table.
abbrev pub pair_with {ℓ κ} : {A : Type ℓ} {B : Type κ} → A → List B → List (A × B)
pair_with a [] = []
pair_with a (b ∷ bs) = (a, b) ∷ pair_with a bs

abbrev pub join {ℓ κ} : {A : Type ℓ} {B : Type κ} → List A → List B → List (A × B)
join [] bs = []
join (a ∷ rows) bs = pair_with a bs ++ join rows bs

abbrev pub sibling_row : Db → ℕ → Track × Release → SiblingTrack
sibling_row db release (t, sib) = record {
  track = t;
  home = sib;
  correction = find (is_offset t.id release) db.offsets;
  counts = recompute_fit_counts t.id release db.fit_reports;
}

abbrev pub newest_first : Track × Release → Track × Release → Bool
newest_first (t, r) (u, s) = leb u.id t.id

-- SiblingTracks.
unfoldable pub sibling_tracks : ℕ → Db → List SiblingTrack
sibling_tracks release db = elim (find (λ r. r.id == release) db.releases) [
  | none ↦ []
  | some self ↦
      map (sibling_row db release)
        (sort_by newest_first (keep (shows_sibling db self) (join db.tracks db.releases)))
]
