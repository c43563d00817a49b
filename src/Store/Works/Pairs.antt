-- ===== src/Store/Works/Pairs.antt =====
-- internal/store/work.go: two releases that are given one work.
use moan_subs.Prelude.{
  ℕ, ◌+◌, ◌≤◌, ◌≡◌, ◌≢◌, refl, Bool, true, false, List, [], ◌∷◌, Option, some, arith, if◌then◌else◌,
  count, find, All, Bool-cases, inl, inr, ==_refl, ◌⊎◌,
}
use native.Mathlib.Decide.{ℕ_discrete}
use moan_subs.Store.Table.{is_id, All-update_where, count-update_where}
use moan_subs.Store.Schema.{Db, Release}
use moan_subs.Store.Releases.{is_release}
use moan_subs.Store.Works.{in_work, set_work, is_either, set_pair, merge_works}
use moan_subs.Store.Works.Grouping.{
  IsGrouped, count-moved_elsewhere, count-emptied, count-emptied_other, count-moved_le,
  All-pointwise,
}

-- The two releases stand in a work.
abbrev pub Linked : ℕ → ℕ → ℕ → Release → Type 0
Linked a b w r = is_either a b r ≡ true → r.work_id ≡ some w

pub count-either :
    (a b : ℕ)
    → a ≢ b
    → (releases : List Release)
    → count (is_either a b) releases ≡ count (is_release a) releases + count (is_release b) releases
count-either a b ne [] = omega arith
count-either a b ne (r ∷ releases) = ground (arith, count-either a b ne releases)

pub any-find :
    (a : ℕ) (releases : List Release) {r : Release}
    → find (is_release a) releases ≡ some r
    → 1 ≤ count (is_release a) releases
any-find a [] h = absurd (cc)
any-find a (s ∷ releases) h = elim (Bool-cases (is_release a s)) [
  | inl e ↦ rw e (omega arith)
  | inr e ↦ rw e (any-find a releases (rw e at h))
]

pub set_pair-Linked : (w a b : ℕ) (db : Db) → All (Linked a b w) (set_pair w a b db).releases
set_pair-Linked w a b db =
    All-update_where {P = λ _. Unit {0}} {Q = Linked a b w} (is_either a b) (set_work (some w))
      (λ r _ _ _. refl) (λ r _ miss e. absurd (cc)) db.releases
      (All-pointwise (λ _. Unit {0}) (λ _. tt) db.releases)

-- Where neither release is in another work than the one they get, the grouping stays.
pub set_pair-IsGrouped :
    (w a b : ℕ) (db : Db)
    → 2 ≤ count (is_either a b) db.releases
    → ((x : ℕ) → x ≢ w → All (λ r. is_either a b r ≡ true → in_work x r ≡ false) db.releases)
    → ((x : ℕ) → x ≢ w → count (in_work x) db.releases ≢ 1)
    → IsGrouped (set_pair w a b db).releases
set_pair-IsGrouped w a b db two apart grouped x = elim (ℕ_discrete x w) [
  | yes same ↦
      rw same
        (λ one. absurd (omega (arith, count-moved_le w (is_either a b) db.releases, two, one)))
  | no ne ↦
      rw (count-moved_elsewhere x (is_either a b) (some w) db.releases (ground arith) (apart x ne))
        (grouped x ne)
]

-- Either of two releases is in one of two works.
abbrev pub InEither : ℕ → ℕ → ℕ → ℕ → Release → Type 0
InEither a b v w r = is_either a b r ≡ true → (r.work_id ≡ some v) ⊎ (r.work_id ≡ some w)

-- The same where two works are merged first.
pub merge-IsGrouped :
    (kept dropped a b : ℕ) (db : Db)
    → kept ≢ dropped
    → 2 ≤ count (is_either a b) db.releases
    → All (InEither a b kept dropped) db.releases
    → IsGrouped db.releases
    → IsGrouped (set_pair kept a b (merge_works kept dropped db)).releases
merge-IsGrouped kept dropped a b db ne two either grouped =
    set_pair-IsGrouped kept a b (merge_works kept dropped db)
      (rw
        (count-update_where (is_either a b) (in_work dropped) (set_work (some kept)) (λ r _. refl)
          db.releases)
        two)
      (λ x away.
        All-update_where {P = InEither a b kept dropped}
          {Q = λ r. is_either a b r ≡ true → in_work x r ≡ false} (in_work dropped)
          (set_work (some kept)) (λ r _ _ _. ground arith)
          (λ r h miss e. elim (h e) [
            | inl k ↦ rw k (ground arith)
            | inr d ↦ absurd (let stuck : in_work dropped r ≡ true = rw d (==_refl dropped) in cc)
          ])
          db.releases either)
      (λ x away. elim (ℕ_discrete x dropped) [
        | yes same ↦ rw same (λ one.
            absurd
              (omega (arith, count-emptied dropped (some kept) db.releases (ground arith), one)))
        | no other ↦
            rw (count-emptied_other x dropped (some kept) db.releases other (ground arith))
              (grouped x)
      ])

-- What both works are, for every row with one of the two ids.
abbrev pub Known : ℕ → Option ℕ → List Release → Type 0
Known id w releases = All (λ r. is_release id r ≡ true → r.work_id ≡ w) releases

pub both-Known :
    (a b : ℕ) (wa wb : Option ℕ) (P : Option ℕ → Type 0) (releases : List Release)
    → P wa
    → P wb
    → Known a wa releases
    → Known b wb releases
    → All (λ r. is_either a b r ≡ true → P r.work_id) releases
both-Known a b wa wb P [] pa pb _ _ = tt
both-Known a b wa wb P (r ∷ releases) pa pb (ha, has) (hb, hbs) = (
  λ e. elim (Bool-cases (is_release a r)) [
    | inl ea ↦ rw (ha ea) pa
    | inr na ↦ rw (hb (ground arith)) pb
  ],
  both-Known a b wa wb P releases pa pb has hbs,
)

-- The works in which one work's members are found: none of them is in another.
pub apart :
    (a b v : ℕ) (wa wb : Option ℕ) (releases : List Release)
    → ((x : ℕ) → x ≢ v → is_id x wa ≡ false)
    → ((x : ℕ) → x ≢ v → is_id x wb ≡ false)
    → Known a wa releases
    → Known b wb releases
    → (x : ℕ) → x ≢ v
    → All (λ r. is_either a b r ≡ true → in_work x r ≡ false) releases
apart a b v wa wb releases na nb ka kb x ne =
    both-Known a b wa wb (λ w. is_id x w ≡ false) releases (na x ne) (nb x ne) ka kb

pub either_way :
    {A : Type 0} (c : Bool) (x y : A) (P : A → Type 0)
    → (c ≡ true → P x)
    → (c ≡ false → P y)
    → P (if c then x else y)
either_way true x y P yes_case no_case = yes_case refl
either_way false x y P yes_case no_case = no_case refl

pub elsewhere : (v x : ℕ) → x ≢ v → is_id x (some v) ≡ false
elsewhere v x ne = ground arith
