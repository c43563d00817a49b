-- ===== src/Store/Table/Upsert.antt =====
-- INSERT … ON CONFLICT (key) DO UPDATE, as internal/store/vote.go and internal/store/fit.go use it:
-- `p` names the row with the key, `f` is the update, `new` the row that is inserted otherwise.
use moan_subs.Prelude.{
  ◌+◌, ◌≤◌, ◌≡◌, refl, sym, ◌∙◌, Bool, true, false, List, [], ◌∷◌, ◌++◌, none, some, arith,
  if◌then◌else◌, count, any, find, All, Bool-cases, inl, inr, count-append,
}
use moan_subs.Store.Table.{update_where, delete_where, count-update_where, delete_where_none}

module _ {ℓ} {A : Type ℓ} where
  unfoldable pub upsert_where : (A → Bool) → (A → A) → A → List A → List A
  upsert_where p f new rows = if any p rows then update_where p f rows else rows ++ new ∷ []

  pub count-none : (p : A → Bool) (rows : List A) → any p rows ≡ false → count p rows ≡ 0
  count-none p [] h = refl
  count-none p (r ∷ rows) h = ground (arith, count-none p rows)

  pub count-some : (p : A → Bool) (rows : List A) → any p rows ≡ true → 1 ≤ count p rows
  count-some p [] h = absurd (cc)
  count-some p (r ∷ rows) h = ground (arith, count-some p rows)

  -- A test that sees neither the update nor the insertion has the count that it had.
  pub count-upsert_other :
      (q p : A → Bool) (f : A → A) (new : A) (rows : List A)
      → ((r : A) → p r ≡ true → q (f r) ≡ q r)
      → q new ≡ false
      → count q (upsert_where p f new rows) ≡ count q rows
  unfolding upsert_where
  count-upsert_other q p f new rows same unseen = elim (Bool-cases (any p rows)) [
    | inl e ↦ rw e (count-update_where q p f same rows)
    | inr e ↦ rw e (ground (arith, count-append q rows (new ∷ [])))
  ]

  count-update_all :
      (q p : A → Bool) (f : A → A) (b : Bool)
      → ((r : A) → p r ≡ true → q (f r) ≡ b)
      → (rows : List A)
      → count q (update_where p f rows)
        ≡ count q (delete_where p rows) + (if b then count p rows else 0)
  count-update_all q p f b hit [] = ground arith
  count-update_all q p f b hit (r ∷ rows) = elim (Bool-cases (p r)) [
    | inl e ↦ rw (e, hit r e) (ground (arith, count-update_all q p f b hit rows))
    | inr e ↦ rw e (ground (arith, count-update_all q p f b hit rows))
  ]

  -- With at most one row under the key, an upsert counts the other rows and the one that was put.
  pub count-upsert_self :
      (q p : A → Bool) (f : A → A) (new : A) (b : Bool) (rows : List A)
      → ((r : A) → p r ≡ true → q (f r) ≡ b)
      → q new ≡ b
      → count p rows ≤ 1
      → count q (upsert_where p f new rows) ≡ count q (delete_where p rows) + (if b then 1 else 0)
  unfolding upsert_where
  count-upsert_self q p f new b rows hit put key = elim (Bool-cases (any p rows)) [
    | inl e ↦ rw e (ground (arith, count-update_all q p f b hit rows, count-some p rows e))
    | inr e ↦
        rw (e, delete_where_none p rows (count-none p rows e))
          (ground (arith, count-append q rows (new ∷ [])))
  ]

  -- The key holds of one row afterwards.
  pub count-upsert_key :
      (p : A → Bool) (f : A → A) (new : A) (rows : List A)
      → ((r : A) → p r ≡ true → p (f r) ≡ true)
      → p new ≡ true
      → count p rows ≤ 1
      → count p (upsert_where p f new rows) ≡ 1
  unfolding upsert_where
  count-upsert_key p f new rows hit put key = elim (Bool-cases (any p rows)) [
    | inl e ↦
        rw (e, count-update_where p p f (λ r h. hit r h ∙ sym h) rows)
          (omega (arith, count-some p rows e))
    | inr e ↦ rw e (ground (arith, count-append p rows (new ∷ []), count-none p rows e))
  ]

  delete-update :
      (p : A → Bool) (f : A → A)
      → ((r : A) → p r ≡ true → p (f r) ≡ true)
      → (rows : List A) → delete_where p (update_where p f rows) ≡ delete_where p rows
  delete-update p f hit [] = refl
  delete-update p f hit (r ∷ rows) = elim (Bool-cases (p r)) [
    | inl e ↦ rw (e, hit r e) (delete-update p f hit rows)
    | inr e ↦ rw (e, e) (rw (delete-update p f hit rows))
  ]

  delete-append :
      (p : A → Bool) (rows : List A) (new : A)
      → p new ≡ true
      → delete_where p (rows ++ new ∷ []) ≡ delete_where p rows
  delete-append p [] new h = rw h
  delete-append p (r ∷ rows) new h = elim (Bool-cases (p r)) [
    | inl e ↦ rw e (delete-append p rows new h)
    | inr e ↦ rw e (rw (delete-append p rows new h))
  ]

  -- Deleting the key's row undoes an upsert, but for a row that stood under the key before.
  pub delete-upsert :
      (p : A → Bool) (f : A → A) (new : A) (rows : List A)
      → ((r : A) → p r ≡ true → p (f r) ≡ true)
      → p new ≡ true
      → delete_where p (upsert_where p f new rows) ≡ delete_where p rows
  unfolding upsert_where
  delete-upsert p f new rows hit put = elim (Bool-cases (any p rows)) [
    | inl e ↦ rw e (delete-update p f hit rows)
    | inr e ↦ rw e (delete-append p rows new put)
  ]

  pub find-update :
      (p : A → Bool) (f : A → A)
      → ((r : A) → p r ≡ true → p (f r) ≡ true)
      → (rows : List A) → any p rows ≡ true
      → (r : A) × (find p rows ≡ some r) × (find p (update_where p f rows) ≡ some (f r))
  find-update p f hit [] h = absurd (cc)
  find-update p f hit (r ∷ rows) h = elim (Bool-cases (p r)) [
    | inl e ↦ (r, rw e, rw (e, hit r e))
    | inr e ↦ let (r', a, b) = find-update p f hit rows (rw e at h) in (r', rw e a, rw (e, e) b)
  ]

  find-append :
      (p : A → Bool) (rows : List A) (new : A)
      → any p rows ≡ false
      → p new ≡ true
      → (find p rows ≡ none) × (find p (rows ++ new ∷ []) ≡ some new)
  find-append p [] new h put = (refl, rw put)
  find-append p (r ∷ rows) new h put = ground (arith, find-append p rows new)

  -- The row under the key is the update of the one there was, or the new one if there was none.
  pub find-upsert :
      (p : A → Bool) (f : A → A) (new : A) (rows : List A)
      → ((r : A) → p r ≡ true → p (f r) ≡ true)
      → p new ≡ true
      → find p (upsert_where p f new rows)
        ≡ elim (find p rows) [ none ↦ some new | some r ↦ some (f r) ]
  unfolding upsert_where
  find-upsert p f new rows hit put = elim (Bool-cases (any p rows)) [
    | inl e ↦ let (r, a, b) = find-update p f hit rows e in rw (e, a) b
    | inr e ↦ let (a, b) = find-append p rows new e put in rw (e, a) b
  ]

  pub find-update_other :
      (q p : A → Bool) (f : A → A)
      → ((r : A) → p r ≡ true → (q r ≡ false) × (q (f r) ≡ false))
      → (rows : List A) → find q (update_where p f rows) ≡ find q rows
  find-update_other q p f excl [] = refl
  find-update_other q p f excl (r ∷ rows) = elim (Bool-cases (p r)) [
    | inl e ↦ let (a, b) = excl r e in rw (e, a, b) (find-update_other q p f excl rows)
    | inr e ↦ rw (e, find-update_other q p f excl rows)
  ]

  find-append_other :
      (q : A → Bool) (rows : List A) (new : A)
      → q new ≡ false
      → find q (rows ++ new ∷ []) ≡ find q rows
  find-append_other q [] new h = rw h
  find-append_other q (r ∷ rows) new h = rw (find-append_other q rows new h)

  -- A test that excludes the key finds the row that it found.
  pub find-upsert_other :
      (q p : A → Bool) (f : A → A) (new : A) (rows : List A)
      → ((r : A) → p r ≡ true → (q r ≡ false) × (q (f r) ≡ false))
      → q new ≡ false
      → find q (upsert_where p f new rows) ≡ find q rows
  unfolding upsert_where
  find-upsert_other q p f new rows excl unseen = elim (Bool-cases (any p rows)) [
    | inl e ↦ rw e (find-update_other q p f excl rows)
    | inr e ↦ rw e (find-append_other q rows new unseen)
  ]

  pub any-update :
      (p : A → Bool) (f : A → A)
      → ((r : A) → p r ≡ true → p (f r) ≡ true)
      → (rows : List A) → any p (update_where p f rows) ≡ any p rows
  any-update p f hit [] = refl
  any-update p f hit (r ∷ rows) = elim (Bool-cases (p r)) [
    | inl e ↦ rw (e, hit r e)
    | inr e ↦ rw (e, e) (any-update p f hit rows)
  ]

  -- An update that meets no row changes nothing.
  pub update_none :
      (p : A → Bool) (f : A → A) (rows : List A)
      → All (λ r. p r ≡ false) rows
      → update_where p f rows ≡ rows
  update_none p f [] h = refl
  update_none p f (r ∷ rows) (e, es) = rw (e, update_none p f rows es)
