-- ===== src/Examples/Works.antt =====
-- The theorems on internal/store/work.go at the releases of the sample.
use moan_subs.Prelude.{ℕ, ◌≡◌, refl, true, arith, [], ◌∷◌, none, some, All}
use moan_subs.Prelude.Result.{ok}
use moan_subs.Store.Schema.{Db, Release}
use moan_subs.Store.Releases.{is_release}
use moan_subs.Store.Works.{is_either, set_work, link_releases, unlink_release}
use moan_subs.Store.Works.Grouping.{HasKeys, IsGrouped, unlink_release-IsGrouped}
use moan_subs.Store.Works.Linking.{link_releases-IsGrouped}
use moan_subs.Examples.Data.{sample, film}

keys : HasKeys sample.releases
keys id = ground arith

grouped : IsGrouped sample.releases
grouped w one = absurd (ground arith)

unlink_release_example :
    (db' : Db) × (unlink_release 2 sample ≡ ok db')
    × All (λ s. is_release 2 s ≡ true → s.work_id ≡ none) db'.releases
    × IsGrouped db'.releases
unlink_release_example = unlink_release-IsGrouped 2 sample (film 2) keys grouped refl

-- A second pair, in a work of its own.
abbrev other_film : ℕ → Release
other_film id = set_work (some 9) (film id)

abbrev two_works : Db
two_works = record sample { releases = film 1 ∷ film 2 ∷ other_film 3 ∷ other_film 6 ∷ [] }

two_keys : HasKeys two_works.releases
two_keys id = ground arith

two-IsGrouped : IsGrouped two_works.releases
two-IsGrouped w one = absurd (ground arith)

link_releases_example :
    (db' : Db) × (w : ℕ) × (link_releases 1 3 two_works ≡ ok (db', w))
    × All (λ r. is_either 1 3 r ≡ true → r.work_id ≡ some w) db'.releases
    × IsGrouped db'.releases
link_releases_example =
    link_releases-IsGrouped 1 3 two_works (film 1) (other_film 3) (λ e. absurd (omega arith))
      two_keys two-IsGrouped refl refl
