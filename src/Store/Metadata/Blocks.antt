-- ===== src/Store/Metadata/Blocks.antt =====
-- internal/store/metadata.go: the release that a moderator has unpinned, blocked from automatic confirmation.
use moan_subs.Prelude.{
  ℕ, ◌≡◌, refl, Bool, true, false, List, [], ◌∷◌, Option, none, some, arith, ◌==◌, find, Bool-cases,
  inl, inr,
}
use moan_subs.Store.Table.{update_where, delete_where}
use moan_subs.Store.Table.Upsert.{find-upsert_other}
use moan_subs.Store.Schema.{Db, Release, Metadata, Confirmation}
use moan_subs.Store.Releases.{is_release}
use moan_subs.Store.Metadata.{of_release, confirmation_row, repin, put_confirmation}

-- A row that is found, if one is, is blocked.
abbrev pub RowBlocked : Option Release → Type 0
RowBlocked none = Unit {0}
RowBlocked (some r) = r.autoconfirm_blocked ≡ true

abbrev pub IsBlocked : ℕ → List Release → Type 0
IsBlocked i rows = RowBlocked (find (is_release i) rows)

-- A release with no pin that may not be given one automatically.
abbrev pub IsUnpinned : ℕ → Db → Type 0
IsUnpinned i db = IsBlocked i db.releases × (find (of_release i) db.confirmations ≡ none)

-- An update that leaves ids alone and lifts no block.
pub update-IsBlocked :
    (p : Release → Bool) (f : Release → Release)
    → ((r : Release) → (f r).id ≡ r.id)
    → ((r : Release) → r.autoconfirm_blocked ≡ true → (f r).autoconfirm_blocked ≡ true)
    → (i : ℕ) (rows : List Release) → IsBlocked i rows
    → IsBlocked i (update_where p f rows)
update-IsBlocked p f same kept i [] h = tt
update-IsBlocked p f same kept i (r ∷ rows) h = elim (Bool-cases (r.id == i)) [
  | inl e ↦ elim (Bool-cases (p r)) [
    | inl d ↦ rw (d, same r, e) (kept r (rw e at h))
    | inr d ↦ rw (d, e) (rw e at h)
  ]
  | inr e ↦
      let rest = update-IsBlocked p f same kept i rows (rw e at h) in
      elim (Bool-cases (p r)) [ inl d ↦ rw (d, same r, e) rest | inr d ↦ rw (d, e) rest ]
]

-- An update of other releases.
pub update-IsBlocked_other :
    (release : ℕ) (f : Release → Release)
    → ((r : Release) → (f r).id ≡ r.id)
    → (i : ℕ) → (release == i) ≡ false
    → (rows : List Release) → IsBlocked i rows
    → IsBlocked i (update_where (is_release release) f rows)
update-IsBlocked_other release f same i ne [] h = tt
update-IsBlocked_other release f same i ne (r ∷ rows) h = elim (Bool-cases (r.id == release)) [
  | inl d ↦
      let e : (r.id == i) ≡ false = ground arith in
      rw (d, same r, e) (update-IsBlocked_other release f same i ne rows (rw e at h))
  | inr d ↦ elim (Bool-cases (r.id == i)) [
    | inl e ↦ rw (d, e) (rw e at h)
    | inr e ↦ rw (d, e) (update-IsBlocked_other release f same i ne rows (rw e at h))
  ]
]

pub deleted-bare :
    (d : Confirmation → Bool) (i : ℕ) (rows : List Confirmation)
    → find (of_release i) rows ≡ none
    → find (of_release i) (delete_where d rows) ≡ none
deleted-bare d i [] h = refl
deleted-bare d i (c ∷ rows) h = elim (Bool-cases (c.release_id == i)) [
  | inl e ↦ absurd (cc (rw e at h))
  | inr e ↦
      let rest = deleted-bare d i rows (rw e at h) in
      elim (Bool-cases (d c)) [ inl x ↦ rw x rest | inr x ↦ rw (x, e) rest ]
]

-- A pin of another release.
pub put_confirmation-bare :
    (release : ℕ) (by : Option ℕ) (m : Metadata) (now i : ℕ) (db : Db)
    → (release == i) ≡ false
    → find (of_release i) (put_confirmation release by m now db).confirmations
      ≡ find (of_release i) db.confirmations
put_confirmation-bare release by m now i db ne =
    find-upsert_other (of_release i) (of_release release) (repin by m now)
      (confirmation_row release by m now) db.confirmations
      (λ c hit. (ground (arith, hit), ground (arith, hit))) ne
