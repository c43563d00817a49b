-- ===== src/Store/StashIds/Attached.antt =====
-- internal/store/stash_id.go: what AddReleaseStashIDs attaches, and what it leaves.
use moan_subs.Prelude.{
  ℕ, ◌≡◌, refl, sym, ap, ◌∙◌, Bool, true, List, [], ◌∷◌, ◌++◌, Option, arith, any, All, Bool-cases,
  inl, inr, ==_refl, append_assoc, append-nil, All-append,
}
use moan_subs.Prelude.Result.{Result, ok, ◌>>=◌}
use moan_subs.Prelude.Text.{text_eq_refl}
use moan_subs.Store.Table.Keep.{any-append}
use moan_subs.Store.Schema.{Db, StashId, StoreError}
use moan_subs.Store.StashIds.{
  NewStashId, stash_id_row, has_stash_key, stash_references, attach_stash_id, add_release_stash_ids,
}

abbrev pub IsAttached : ℕ → Db → NewStashId → Type 0
IsAttached release db n = any (has_stash_key release n.endpoint n.stash_id) db.stash_ids ≡ true

-- The rows behind those of an older table were added to a release by one caller.
abbrev pub AddedTo : ℕ → Option ℕ → List StashId → Type 0
AddedTo release added_by = All (λ s. (s.release_id ≡ release) × (s.added_by ≡ added_by))

-- The second database is the first with some rows of a caller behind its Stash ids.
abbrev pub Extends : ℕ → Option ℕ → Db → Db → Type 0
Extends release added_by old new =
    (more : List StashId) × (new ≡ record old { stash_ids = old.stash_ids ++ more })
    × AddedTo release added_by more

own_key :
    (release : ℕ) (n : NewStashId) (added_by : Option ℕ)
    → has_stash_key release n.endpoint n.stash_id (stash_id_row release n added_by) ≡ true
own_key release n added_by =
    ground (arith, ==_refl release, text_eq_refl n.endpoint, text_eq_refl n.stash_id)

any-append_left {ℓ} :
    {A : Type ℓ} (p : A → Bool) (xs ys : List A) → any p xs ≡ true → any p (xs ++ ys) ≡ true
any-append_left p xs ys h = rw (any-append p xs ys, h) refl

-- Ids whose keys are there are attached without a change.
add_attached :
    (release : ℕ) (ids : List NewStashId) (added_by : Option ℕ) (db : Db)
    → All (IsAttached release db) ids
    → add_release_stash_ids release ids added_by db ≡ ok db
unfolding add_release_stash_ids
add_attached release [] added_by db _ = refl
add_attached release (n ∷ ids) added_by db (h, hs) = rw h (add_attached release ids added_by db hs)

attach_stash_id-Extends :
    (release : ℕ) (added_by : Option ℕ) (n : NewStashId) (db : Db)
    → stash_references release added_by db ≡ true
    → (db' : Db) × (attach_stash_id release added_by n db ≡ ok db')
      × Extends release added_by db db'
      × IsAttached release db' n
attach_stash_id-Extends release added_by n db present =
    let key = has_stash_key release n.endpoint n.stash_id in
    let row = stash_id_row release n added_by in
    elim (Bool-cases (any key db.stash_ids)) [
      | inl e ↦ (
        db,
        rw e,
        (
          [],
          ap (λ (rows : List StashId). record db { stash_ids = rows })
              (sym (append-nil db.stash_ids)),
          tt,
        ),
        e,
      )
      | inr e ↦ (
        record db { stash_ids = db.stash_ids ++ row ∷ [] },
        rw (e, present),
        (row ∷ [], refl, ((refl, refl), tt)),
        ground (arith, any-append key db.stash_ids (row ∷ []), own_key release n added_by),
      )
    ]

Extends-references :
    (release : ℕ) (added_by : Option ℕ) (old new : Db)
    → Extends release added_by old new
    → stash_references release added_by new ≡ stash_references release added_by old
unfolding stash_references
Extends-references release added_by old new (more, e, _) = ap (stash_references release added_by) e

Extends-trans :
    (release : ℕ) (added_by : Option ℕ) (a b c : Db)
    → Extends release added_by a b
    → Extends release added_by b c
    → Extends release added_by a c
Extends-trans release added_by a b c (more, e, h) (later, d, k) = (
  more ++ later,
  d
      ∙ ap (λ (m : Db). record m { stash_ids = m.stash_ids ++ later }) e
      ∙ ap (λ (rows : List StashId). record a { stash_ids = rows })
          (append_assoc a.stash_ids more later),
  All-append _ more later h k,
)

Extends-Attached :
    (release : ℕ) (added_by : Option ℕ) (old new : Db) (n : NewStashId)
    → Extends release added_by old new
    → IsAttached release old n
    → IsAttached release new n
Extends-Attached release added_by old new n (more, e, _) h =
    ap (λ (m : Db). any (has_stash_key release n.endpoint n.stash_id) m.stash_ids) e
    ∙ any-append_left (has_stash_key release n.endpoint n.stash_id) old.stash_ids more h

add-Extends :
    (release : ℕ) (ids : List NewStashId) (added_by : Option ℕ) (db : Db)
    → stash_references release added_by db ≡ true
    → (db' : Db) × (add_release_stash_ids release ids added_by db ≡ ok db')
      × Extends release added_by db db'
      × All (IsAttached release db') ids
unfolding add_release_stash_ids
add-Extends release [] added_by db present = (
  db,
  refl,
  (
    [],
    ap (λ (rows : List StashId). record db { stash_ids = rows }) (sym (append-nil db.stash_ids)),
    tt,
  ),
  tt,
)
add-Extends release (n ∷ ids) added_by db present =
    let (first, e, extends, here) = attach_stash_id-Extends release added_by n db present in
    let (last, d, extends', there) =
      add-Extends release ids added_by first
        (Extends-references release added_by db first extends ∙ present) in
    (
      last,
      ap
            (λ (m : Result StoreError Db).
              m >>= λ stored. add_release_stash_ids release ids added_by stored)
            e
          ∙ d,
      Extends-trans release added_by db first last extends extends',
      (Extends-Attached release added_by first last n extends' here, there),
    )

-- Attaching ids to an existing release, for an existing account or for none, succeeds. All of them are then
-- attached; the rows that were there are as they were, with who added them, and those behind them are the
-- caller's; and attaching the same ids again, for whichever account, changes nothing.
pub add_release_stash_ids-Attached :
    (release : ℕ) (ids : List NewStashId) (added_by : Option ℕ) (db : Db)
    → stash_references release added_by db ≡ true
    → (db' : Db) × (add_release_stash_ids release ids added_by db ≡ ok db')
      × Extends release added_by db db'
      × All (IsAttached release db') ids
      × ((other : Option ℕ) → add_release_stash_ids release ids other db' ≡ ok db')
add_release_stash_ids-Attached release ids added_by db present =
    let (db', e, extends, attached) = add-Extends release ids added_by db present in
    (db', e, extends, attached, λ other. add_attached release ids other db' attached)
