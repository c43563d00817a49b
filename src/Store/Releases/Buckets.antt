-- ===== src/Store/Releases/Buckets.antt =====
-- internal/store/release.go: the five block lookups find what the full-hash lookup finds.
use moan_subs.Prelude.{
  ℕ, ◌^◌, ◌≤◌, ◌<◌, ◌≡◌, refl, sym, ap, Bool, true, List, ◌++◌, Option, none, some, arith, any,
  keep, map, get_elem?, All, inl, inr, ◌⊎◌,
}
use moan_subs.Prelude.Int.{ℤ, eq_ℤ}
use moan_subs.Prelude.Result.{Result, ok, ◌>>=◌}
use moan_subs.Hash.PHash.{Blocks, blocks, to_bigint, hamming}
use moan_subs.Hash.PHash.Sharing.{shared_block}
use moan_subs.Hash.PHash.Print.{from_bigint-to_bigint}
use moan_subs.Store.Table.{is_null, All-and}
use moan_subs.Store.Table.Keep.{any-append, All-keep, Covered, keep_covers, same}
use moan_subs.Store.Schema.{Db, Release, StoreError}
use moan_subs.Store.Releases.Lookup.{
  int16, block_list, phash_columns, in_bucket, lookup_by_block, is_near, lookup_by_phash_fuzzy,
}

abbrev pub IsHash : Option ℕ → Type 0
IsHash none = Unit
IsHash (some h) = h < 2 ^ 64

-- The columns of a row are those of one phash.
abbrev pub IsIndexed : Release → Type 0
IsIndexed r = (h : Option ℕ) × IsHash h × ((r.phash, r.phash_blocks) ≡ phash_columns h)

-- The answers to a lookup by each of a hash's five blocks, one after the other.
unfoldable pub bucket_candidates : ℕ → Db → Result StoreError (List Release)
bucket_candidates target db = do
  let b = blocks target
  r0 ← lookup_by_block 0 b.b0 db
  r1 ← lookup_by_block 1 b.b1 db
  r2 ← lookup_by_block 2 b.b2 db
  r3 ← lookup_by_block 3 b.b3 db
  r4 ← lookup_by_block 4 b.b4 db
  ok (r0 ++ (r1 ++ (r2 ++ (r3 ++ r4))))

eq_ℤ_refl : (a : ℤ) → eq_ℤ a a ≡ true
eq_ℤ_refl a = ground arith

abbrev pub key : Release → ℕ
key r = r.id

abbrev pub same_id : Release → Release → Bool
same_id = same key

abbrev InSomeBucket : ℕ → Release → Type 0
InSomeBucket target r =
    (in_bucket 0 (blocks target).b0 r ≡ true)
    ⊎ (in_bucket 1 (blocks target).b1 r ≡ true)
    ⊎ (in_bucket 2 (blocks target).b2 r ≡ true)
    ⊎ (in_bucket 3 (blocks target).b3 r ≡ true)
    ⊎ (in_bucket 4 (blocks target).b4 r ≡ true)

bucket_of :
    (index a b : ℕ) (r : Release)
    → get_elem? r.phash_blocks index ≡ some (int16 a)
    → is_null r.withdrawn_at ≡ true
    → a ≡ b
    → in_bucket index b r ≡ true
bucket_of index a b r stored live same =
    rw (stored, live, sym same) (ground (arith, eq_ℤ_refl (int16 a)))

-- One of the five blocks of a near release is the target's.
near_bucket :
    (target max : ℕ) (r : Release)
    → target < 2 ^ 64
    → max ≤ 4
    → IsIndexed r
    → is_near target max r ≡ true
    → InSomeBucket target r
unfolding phash_columns
near_bucket target max r small few (none, _, e) near =
    let absent : r.phash ≡ none = ap (λ x. x.0) e in absurd (ground arith)
near_bucket target max r small few (some h, bound, e) near =
    let column : r.phash ≡ some (to_bigint h) = ap (λ x. x.0) e in
    let stored : r.phash_blocks ≡ map int16 (block_list (blocks h)) = ap (λ x. x.1) e in
    let live : is_null r.withdrawn_at ≡ true = ground arith in
    let close : hamming h target ≤ max =
      ground (arith, from_bigint-to_bigint h bound, from_bigint-to_bigint target small, column) in
    let column_of : (index : ℕ)
        → get_elem? r.phash_blocks index ≡ get_elem? (map int16 (block_list (blocks h))) index =
      λ index. ap (λ (l : List ℤ). get_elem? l index) stored in
    elim (shared_block h target (ground arith)) [
      | inl s ↦ inl (bucket_of 0 (blocks h).b0 (blocks target).b0 r (column_of 0) live s)
      | inr x ↦ elim x [
        | inl s ↦ inr (inl (bucket_of 1 (blocks h).b1 (blocks target).b1 r (column_of 1) live s))
        | inr y ↦ elim y [
          | inl s ↦
              inr (inr (inl (bucket_of 2 (blocks h).b2 (blocks target).b2 r (column_of 2) live s)))
          | inr z ↦ elim z [
            | inl s ↦ inr (
                inr
                  (inr (inl (bucket_of 3 (blocks h).b3 (blocks target).b3 r (column_of 3) live s))))
            | inr s ↦ inr (
                inr
                  (inr (inr (bucket_of 4 (blocks h).b4 (blocks target).b4 r (column_of 4) live s))))
          ]
        ]
      ]
    ]

abbrev bucket : ℕ → ℕ → Db → List Release
bucket index value db = keep (in_bucket index value) db.releases

abbrev all_buckets : ℕ → Db → List Release
all_buckets target db =
    let b = blocks target in
    bucket 0 b.b0 db
    ++ (bucket 1 b.b1 db ++ (bucket 2 b.b2 db ++ (bucket 3 b.b3 db ++ bucket 4 b.b4 db)))

bucket_candidates-eq :
    (target : ℕ) (db : Db) → bucket_candidates target db ≡ ok (all_buckets target db)
unfolding bucket_candidates lookup_by_block
bucket_candidates-eq target db = refl

lookup_by_phash_fuzzy-eq :
    (target max : ℕ) (db : Db)
    → max ≤ 8
    → lookup_by_phash_fuzzy target max db ≡ ok (keep (is_near target max) db.releases)
unfolding lookup_by_phash_fuzzy
lookup_by_phash_fuzzy-eq target max db h = ground arith

abbrev Bucketed : ℕ → ℕ → Db → Release → Type 0
Bucketed index value db r = Covered key (in_bucket index value) (bucket index value db) r

abbrev BucketedFrom3 : Blocks → Db → Release → Type 0
BucketedFrom3 b db r = Bucketed 3 b.b3 db r × Bucketed 4 b.b4 db r

abbrev BucketedFrom2 : Blocks → Db → Release → Type 0
BucketedFrom2 b db r = Bucketed 2 b.b2 db r × BucketedFrom3 b db r

abbrev BucketedFrom1 : Blocks → Db → Release → Type 0
BucketedFrom1 b db r = Bucketed 1 b.b1 db r × BucketedFrom2 b db r

abbrev CoveredBy : Blocks → Db → Release → Type 0
CoveredBy b db r = Bucketed 0 b.b0 db r × BucketedFrom1 b db r

buckets_cover : (b : Blocks) (db : Db) → All (CoveredBy b db) db.releases
buckets_cover b db =
    let rows = db.releases in
    let c3 : All (BucketedFrom3 b db) rows =
      All-and (Bucketed 3 b.b3 db) (Bucketed 4 b.b4 db) rows
        (keep_covers key (in_bucket 3 b.b3) rows) (keep_covers key (in_bucket 4 b.b4) rows) in
    let c1 : All (BucketedFrom1 b db) rows =
      All-and (Bucketed 1 b.b1 db) (BucketedFrom2 b db) rows
        (keep_covers key (in_bucket 1 b.b1) rows)
        (All-and (Bucketed 2 b.b2 db) (BucketedFrom3 b db) rows
          (keep_covers key (in_bucket 2 b.b2) rows) c3) in
    All-and (Bucketed 0 b.b0 db) (BucketedFrom1 b db) rows (keep_covers key (in_bucket 0 b.b0) rows)
      c1

any-buckets :
    (target : ℕ) (db : Db) (r : Release)
    → CoveredBy (blocks target) db r
    → InSomeBucket target r
    → any (same_id r) (all_buckets target db) ≡ true
any-buckets target db r (c0, (c1, (c2, (c3, c4)))) near =
    let b = blocks target in
    let p = same_id r in
    let k0 = bucket 0 b.b0 db in
    let k1 = bucket 1 b.b1 db in
    let k2 = bucket 2 b.b2 db in
    let k3 = bucket 3 b.b3 db in
    let k4 = bucket 4 b.b4 db in
    rw
      (
        any-append p k0 (k1 ++ (k2 ++ (k3 ++ k4))),
        any-append p k1 (k2 ++ (k3 ++ k4)),
        any-append p k2 (k3 ++ k4),
        any-append p k3 k4,
      )
      (ground (arith, c0, c1, c2, c3, c4))

-- In a table whose block columns are those of the stored phashes, every release that the lookup by full
-- hash returns for a 64-bit target and a distance of at most four is, by its id, among the answers to the
-- lookups by the target's five blocks; both lookups succeed.
pub lookup_by_phash_fuzzy-Bucketed :
    (target max : ℕ) (db : Db)
    → target < 2 ^ 64
    → max ≤ 4
    → All IsIndexed db.releases
    → (near : List Release) × (candidates : List Release) × (lookup_by_phash_fuzzy target max db
        ≡ ok near)
      × (bucket_candidates target db ≡ ok candidates)
      × All (λ r. any (same_id r) candidates ≡ true) near
lookup_by_phash_fuzzy-Bucketed target max db small few indexed =
    let rows = db.releases in
    (
      keep (is_near target max) rows,
      all_buckets target db,
      lookup_by_phash_fuzzy-eq target max db (ground arith),
      bucket_candidates-eq target db,
      All-keep (is_near target max)
          (λ r (i, c) near. any-buckets target db r c (near_bucket target max r small few i near))
          rows
          (All-and IsIndexed (CoveredBy (blocks target) db) rows indexed
            (buckets_cover (blocks target) db)),
    )
