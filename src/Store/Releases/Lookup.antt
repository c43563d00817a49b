-- ===== src/Store/Releases/Lookup.antt =====
-- internal/store/release.go: creating a release, and finding releases by their hashes. The name tokens
-- that are stored beside a release are not part of the rows here.
use moan_subs.Prelude.{
  ℕ, zero, suc, ◌-◌, ◌^◌, Bool, true, false, not, ◌&&◌, List, [], ◌∷◌, ◌++◌, Option, none, some,
  ltb, leb, ◌==◌, if◌then◌else◌, any, find, keep, map, get_elem?,
}
use moan_subs.Prelude.Int.{ℤ, pos, negsuc, eq_ℤ}
use moan_subs.Prelude.Result.{Result, ok, guard, ◌>>=◌, ◌>>◌}
use moan_subs.Prelude.Text.{Text, text_eq}
use moan_subs.Hash.PHash.{Blocks, blocks, to_bigint, from_bigint, hamming}
use moan_subs.Store.Table.{update_where, is_null}
use moan_subs.Store.Schema.{
  Db, Release, Metadata, no_metadata, StoreError, foreign_key, unique_violation, or_not_found,
  bad_block, bad_distance,
}

-- int16 of a uint16.
abbrev pub int16 : ℕ → ℤ
int16 v = if ltb v (2 ^ 15) then pos v else negsuc (2 ^ 16 - v - 1)

abbrev pub block_list : Blocks → List ℕ
block_list b = b.b0 ∷ b.b1 ∷ b.b2 ∷ b.b3 ∷ b.b4 ∷ []

-- phashColumns.
unfoldable pub phash_columns : Option ℕ → Option ℤ × List ℤ
phash_columns none = (none, [])
phash_columns (some h) = (some (to_bigint h), map int16 (block_list (blocks h)))

-- What a caller hands over of a Release.
pub record NewRelease : Type 0 where
  pub work_id : Option ℕ
  pub oshash : Text
  pub phash : Option ℕ
  pub duration_ms : ℕ
  pub stem : Option Text
  pub metadata : Metadata

abbrev pub release_row : NewRelease → ℕ → Release
release_row r id = record {
  id = id;
  work_id = r.work_id;
  oshash = r.oshash;
  phash = (phash_columns r.phash).0;
  phash_blocks = (phash_columns r.phash).1;
  stem = r.stem;
  duration_ms = r.duration_ms;
  metadata = r.metadata;
  autoconfirm_blocked = false;
  withdrawn_at = none;
  withdrawn_reason = none;
}

abbrev pub has_oshash : Text → Release → Bool
has_oshash h r = text_eq r.oshash h

unfoldable pub work_exists : Option ℕ → List ℕ → Bool
work_exists none works = true
work_exists (some w) works = any (λ x. x == w) works

abbrev pub append_release : NewRelease → Db → Db
append_release r db = record db {
  releases = db.releases ++ release_row r db.next_release ∷ [];
  next_release = suc db.next_release;
}

-- CreateRelease.
unfoldable pub create_release : NewRelease → Db → Result StoreError (Db × ℕ)
create_release r db = do
  guard (work_exists r.work_id db.works) foreign_key
  guard (not (any (has_oshash r.oshash) db.releases)) unique_violation
  ok (append_release r db, db.next_release)

-- Only what describes the file.
abbrev pub file_facts : NewRelease → NewRelease
file_facts r = record r { metadata = no_metadata }

-- INSERT … ON CONFLICT (oshash) DO NOTHING. The work is asked for only where a row is inserted,
-- and the row has no metadata.
unfoldable pub insert_release_once : NewRelease → Db → Result StoreError Db
insert_release_once r db =
    if any (has_oshash r.oshash) db.releases
    then ok db
    else (guard (work_exists r.work_id db.works) foreign_key
        >> ok (append_release (file_facts r) db))

abbrev pub lacks_stem : Text → Release → Bool
lacks_stem h r = has_oshash h r && is_null r.stem

-- A stem is recorded where the row has none.
unfoldable pub backfill_stem : Text → Option Text → Db → Db
backfill_stem h none db = db
backfill_stem h (some stem) db = record db {
  releases = update_where (lacks_stem h) (λ r. record r { stem = some stem }) db.releases;
}

-- GetReleaseByOshashAny, GetReleaseByOshash and GetReleaseByID.
unfoldable pub get_release_by_oshash_any : Text → Db → Result StoreError Release
get_release_by_oshash_any h db = or_not_found (find (has_oshash h) db.releases)

unfoldable pub get_release_by_oshash : Text → Db → Result StoreError Release
get_release_by_oshash h db =
    or_not_found (find (λ r. has_oshash h r && is_null r.withdrawn_at) db.releases)

unfoldable pub get_release_by_id : ℕ → Db → Result StoreError Release
get_release_by_id id db = or_not_found (find (λ r. r.id == id) db.releases)

-- GetOrCreateRelease: the insertion, the stem, and the row that is then there.
unfoldable pub get_or_create_release : NewRelease → Db → Result StoreError (Db × Release)
get_or_create_release r db = do
  inserted ← insert_release_once r db
  let stored = backfill_stem r.oshash r.stem inserted
  found ← get_release_by_oshash_any r.oshash stored
  ok (stored, found)

-- left(oshash, n).
abbrev pub left : ℕ → Text → Text
left zero s = []
left (suc n) [] = []
left (suc n) (c ∷ s) = c ∷ left n s

unfoldable pub lookup_by_oshash_prefix : Text → Db → List Release
lookup_by_oshash_prefix prefix db =
    keep (λ r. text_eq (left 5 r.oshash) prefix && is_null r.withdrawn_at) db.releases

abbrev pub is_block : ℤ → Option ℤ → Bool
is_block v none = false
is_block v (some b) = eq_ℤ b v

abbrev pub in_bucket : ℕ → ℕ → Release → Bool
in_bucket index value r =
    is_block (int16 value) (get_elem? r.phash_blocks index) && is_null r.withdrawn_at

-- LookupByBlock, with blockColumn's refusal of another index.
unfoldable pub lookup_by_block : ℕ → ℕ → Db → Result StoreError (List Release)
lookup_by_block index value db = do
  guard (ltb index 5) bad_block
  ok (keep (in_bucket index value) db.releases)

-- bit_count(phash::bit(64) # target::bit(64)) <= max, where a NULL never is.
abbrev pub near_phash : ℕ → ℕ → Option ℤ → Bool
near_phash target max none = false
near_phash target max (some p) = leb (hamming (from_bigint p) (from_bigint (to_bigint target))) max

abbrev pub is_near : ℕ → ℕ → Release → Bool
is_near target max r = near_phash target max r.phash && is_null r.withdrawn_at

-- LookupByPHashFuzzy.
unfoldable pub lookup_by_phash_fuzzy : ℕ → ℕ → Db → Result StoreError (List Release)
lookup_by_phash_fuzzy target max db = do
  guard (leb max 8) bad_distance
  ok (keep (is_near target max) db.releases)
