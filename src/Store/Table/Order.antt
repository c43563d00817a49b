-- ===== src/Store/Table/Order.antt =====
-- ORDER BY on lists of rows, with a Boolean test of what may stand before what.
use moan_subs.Prelude.{
  ◌≡◌, refl, ◌∙◌, Bool, true, false, List, [], ◌∷◌, arith, if◌then◌else◌, count, suc, ap, sym, All,
  keep, length, Bool-cases, inl, inr,
}

module _ {ℓ} {A : Type ℓ} where
  abbrev pub insert_by : (A → A → Bool) → A → List A → List A
  insert_by before r [] = r ∷ []
  insert_by before r (s ∷ rows) = if before r s then r ∷ s ∷ rows else s ∷ insert_by before r rows

  abbrev pub sort_by : (A → A → Bool) → List A → List A
  sort_by before [] = []
  sort_by before (r ∷ rows) = insert_by before r (sort_by before rows)

  -- Each row may stand before the next.
  abbrev pub IsSorted : (A → A → Bool) → List A → Type 0
  IsSorted before [] = Unit
  IsSorted before (r ∷ []) = Unit
  IsSorted before (r ∷ s ∷ rows) = (before r s ≡ true) × IsSorted before (s ∷ rows)

  count-insert_by :
      (before : A → A → Bool) (p : A → Bool) (r : A) (rows : List A)
      → count p (insert_by before r rows) ≡ count p (r ∷ rows)
  count-insert_by before p r [] = refl
  count-insert_by before p r (s ∷ rows) = ground (arith, count-insert_by before p r rows)

  pub count-sort_by :
      (before : A → A → Bool) (p : A → Bool) (rows : List A)
      → count p (sort_by before rows) ≡ count p rows
  count-sort_by before p [] = refl
  count-sort_by before p (r ∷ rows) =
      count-insert_by before p r (sort_by before rows) ∙ ground (arith, count-sort_by before p rows)

  insert_by-IsSorted :
      (before : A → A → Bool)
      → ((r s : A) → before r s ≡ false → before s r ≡ true)
      → (r : A) (rows : List A) → IsSorted before rows
      → IsSorted before (insert_by before r rows)
  insert_by-IsSorted before total r [] h = tt
  insert_by-IsSorted before total r (s ∷ []) h = ground (arith, total r s)
  insert_by-IsSorted before total r (s ∷ u ∷ rows) h =
      ground (arith, total r s, total r u, insert_by-IsSorted before total r (u ∷ rows))

  pub sort_by-IsSorted :
      (before : A → A → Bool)
      → ((r s : A) → before r s ≡ false → before s r ≡ true)
      → (rows : List A) → IsSorted before (sort_by before rows)
  sort_by-IsSorted before total [] = tt
  sort_by-IsSorted before total (r ∷ rows) =
      insert_by-IsSorted before total r (sort_by before rows) (sort_by-IsSorted before total rows)

  insert_by-All {κ} :
      (P : A → Type κ) (before : A → A → Bool) (r : A) (rows : List A)
      → P r
      → All P rows
      → All P (insert_by before r rows)
  insert_by-All P before r [] h _ = (h, tt)
  insert_by-All P before r (s ∷ rows) h (x, xs) = elim (Bool-cases (before r s)) [
    | inl e ↦ rw e (h, (x, xs))
    | inr e ↦ rw e (x, insert_by-All P before r rows h xs)
  ]

  pub sort_by-All {κ} :
      (P : A → Type κ) (before : A → A → Bool) (rows : List A)
      → All P rows
      → All P (sort_by before rows)
  sort_by-All P before [] _ = tt
  sort_by-All P before (r ∷ rows) (x, xs) =
      insert_by-All P before r (sort_by before rows) x (sort_by-All P before rows xs)

  count-true : (rows : List A) → count (λ _. true) rows ≡ length rows
  count-true [] = refl
  count-true (r ∷ rows) = ap suc (count-true rows)

  count-keep_all : (p : A → Bool) (rows : List A) → count (λ _. true) (keep p rows) ≡ count p rows
  count-keep_all p [] = refl
  count-keep_all p (r ∷ rows) = ground (arith, count-keep_all p rows)

  -- A query has as many rows as pass its condition.
  pub length-sorted :
      (before : A → A → Bool) (p : A → Bool) (rows : List A)
      → length (sort_by before (keep p rows)) ≡ count p rows
  length-sorted before p rows =
      sym (count-true (sort_by before (keep p rows)))
      ∙ count-sort_by before (λ _. true) (keep p rows)
      ∙ count-keep_all p rows
