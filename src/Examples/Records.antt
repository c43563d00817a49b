-- ===== src/Examples/Records.antt =====
-- The theorems on releases, offsets, Stash ids and removal requests at concrete inputs.
use moan_subs.Prelude.{
  ℕ, suc, ◌≡◌, refl, true, false, List, [], ◌∷◌, Option, none, some, arith, count, any, find, All,
  length,
}
use moan_subs.Prelude.Result.{ok, err}
use moan_subs.Prelude.Text.{Text, codes, text_eq}
use moan_subs.Store.Schema.{no_metadata, Db, Release, not_found}
use moan_subs.Store.Releases.Lookup.{
  NewRelease, has_oshash, work_exists, get_or_create_release, lookup_by_phash_fuzzy, phash_columns,
}
use moan_subs.Store.Releases.Buckets.{
  IsIndexed, bucket_candidates, same_id, lookup_by_phash_fuzzy-Bucketed,
}
use moan_subs.Store.Releases.Creation.{with_stem, fetched, get_or_create_release_lem}
use moan_subs.Store.StashIds.{NewStashId, add_release_stash_ids, stash_references}
use moan_subs.Store.StashIds.Attached.{Extends, IsAttached, add_release_stash_ids-Attached}
use moan_subs.Store.Removals.{
  removal_allowed, removal_references, removal_row, create_removal_request,
  unhandled_removal_requests, get_removal_request, mark_removal_request_handled, handle_row,
}
use moan_subs.Store.Removals.Queue.{create_removal_request-handled}
use moan_subs.Examples.Data.{sample, film}

abbrev hashed : Release
hashed = record (film 1) {
  phash = (phash_columns (some 5)).0;
  phash_blocks = (phash_columns (some 5)).1;
}

abbrev indexed : Db
indexed = record sample { releases = hashed ∷ film 2 ∷ [] }

hashed-IsIndexed : IsIndexed hashed
hashed-IsIndexed = (some 5, omega arith, refl)

film-IsIndexed : IsIndexed (film 2)
unfolding phash_columns
film-IsIndexed = (none, tt, refl)

lookup_by_phash_fuzzy-Bucketed_example :
    (near : List Release) × (candidates : List Release) × (lookup_by_phash_fuzzy 7 4 indexed
      ≡ ok near)
    × (bucket_candidates 7 indexed ≡ ok candidates)
    × All (λ r. any (same_id r) candidates ≡ true) near
lookup_by_phash_fuzzy-Bucketed_example =
    lookup_by_phash_fuzzy-Bucketed 7 4 indexed (omega arith) (omega arith)
      (hashed-IsIndexed, (film-IsIndexed, tt))

abbrev upload : NewRelease
upload = record {
  work_id = some 4;
  oshash = codes "0000000000000001";
  phash = some 5;
  duration_ms = 60000;
  stem = some (codes "film");
  metadata = no_metadata;
}

get_or_create_release_example :
    let row = with_stem upload.stem (fetched upload sample) in
    (db' : Db) × (get_or_create_release upload sample ≡ ok (db', row))
    × (find (has_oshash upload.oshash) db'.releases ≡ some row)
    × (count (has_oshash upload.oshash) db'.releases ≡ 1)
    × ((h : Text)
        → text_eq upload.oshash h ≡ false
        → find (has_oshash h) db'.releases ≡ find (has_oshash h) sample.releases)
    × (get_or_create_release upload db' ≡ ok (db', row))
unfolding work_exists
get_or_create_release_example = get_or_create_release_lem upload sample refl (omega arith)

abbrev scene : NewStashId
scene = record { endpoint = codes "https://box"; ehash = codes "abc"; stash_id = codes "1" }

add_release_stash_ids-Attached_example :
    (db' : Db) × (add_release_stash_ids 1 (scene ∷ []) (some 2) sample ≡ ok db')
    × Extends 1 (some 2) sample db'
    × All (IsAttached 1 db') (scene ∷ [])
    × ((other : Option ℕ) → add_release_stash_ids 1 (scene ∷ []) other db' ≡ ok db')
unfolding stash_references
add_release_stash_ids-Attached_example =
    add_release_stash_ids-Attached 1 (scene ∷ []) (some 2) sample refl

create_removal_request-handled_example :
    let row = removal_row 1 10 none (codes "other") none none 20 in
    (filed : Db) × (handled : Db) × (create_removal_request 10 none
        (codes "other")
        none
        none
        20
        sample
      ≡ ok (filed, 1))
    × (get_removal_request 1 filed ≡ ok row)
    × (length (unhandled_removal_requests filed) ≡ suc (length (unhandled_removal_requests sample)))
    × (mark_removal_request_handled 1 2 (codes "dismissed") 30 filed ≡ ok handled)
    × (get_removal_request 1 handled ≡ ok (handle_row 2 (codes "dismissed") 30 row))
    × (length (unhandled_removal_requests handled) ≡ length (unhandled_removal_requests sample))
    × ((other : ℕ) (verdict : Text) (time : ℕ)
        → mark_removal_request_handled 1 other verdict time handled ≡ err not_found)
unfolding removal_allowed removal_references
create_removal_request-handled_example =
    create_removal_request-handled 10 none (codes "other") none none 20 2 (codes "dismissed") 30
      sample tt refl refl refl
