-- ===== src/Store/Table/Keep.antt =====
-- SELECT … WHERE on lists of rows, and the rows that are mapped: what the results hold.
use moan_subs.Prelude.{
  ℕ, ◌+◌, ◌≤◌, ◌≡◌, refl, sym, subst, Bool, true, false, ◌||◌, List, [], ◌∷◌, ◌++◌, some, arith,
  ◌==◌, any, find, keep, map, count, All, Bool-cases, inl, inr, ==_refl,
}
use moan_subs.Store.Table.{update_where, delete_where, delete_where_none, All-map}

pub any-append {ℓ} :
    {A : Type ℓ} (p : A → Bool) (xs ys : List A) → any p (xs ++ ys) ≡ (any p xs || any p ys)
any-append p [] ys = refl
any-append p (x ∷ xs) ys = ground (arith, any-append p xs ys)

-- What an update does not change is seen by no test.
pub any-update_unseen {ℓ} :
    {A : Type ℓ} (q p : A → Bool) (f : A → A)
    → ((r : A) → q (f r) ≡ q r)
    → (rows : List A) → any q (update_where p f rows) ≡ any q rows
any-update_unseen q p f same [] = refl
any-update_unseen q p f same (r ∷ rows) = elim (Bool-cases (p r)) [
  | inl e ↦ rw (e, same r, any-update_unseen q p f same rows) refl
  | inr e ↦ rw (e, any-update_unseen q p f same rows) refl
]

module _ {ℓ} {A : Type ℓ} where
  pub All-keep {κ ι} :
      {P : A → Type κ} {Q : A → Type ι} (p : A → Bool)
      → ((r : A) → P r → p r ≡ true → Q r)
      → (rows : List A) → All P rows
      → All Q (keep p rows)
  All-keep p h [] _ = tt
  All-keep p h (r ∷ rows) (x, xs) = elim (Bool-cases (p r)) [
    | inl e ↦ rw e (h r x e, All-keep p h rows xs)
    | inr e ↦ rw e (All-keep p h rows xs)
  ]

  pub keep_taken :
      (p : A → Bool) (r : A) (rows : List A) → p r ≡ true → keep p (r ∷ rows) ≡ r ∷ keep p rows
  keep_taken p r rows e = rw e refl

  pub keep_passed :
      (p : A → Bool) (r : A) (rows : List A) → p r ≡ false → keep p (r ∷ rows) ≡ keep p rows
  keep_passed p r rows e = rw e refl

  abbrev pub same : (A → ℕ) → A → A → Bool
  same key r s = key s == key r

  -- A row that passes a test is found, by its key, among the rows that were kept.
  abbrev pub Covered : (A → ℕ) → (A → Bool) → List A → A → Type 0
  Covered key p kept r = p r ≡ true → any (same key r) kept ≡ true

  Covered-cons :
      (key : A → ℕ) (p : A → Bool) (x : A) (kept rows : List A)
      → All (Covered key p kept) rows
      → All (Covered key p (x ∷ kept)) rows
  Covered-cons key p x kept rows h = All-map (λ r c e. ground (arith, c)) rows h

  pub keep_covers :
      (key : A → ℕ) (p : A → Bool) (rows : List A) → All (Covered key p (keep p rows)) rows
  keep_covers key p [] = tt
  keep_covers key p (r ∷ rows) =
      let rest = keep_covers key p rows in
      let Goal : List A → Type 0 = λ k. All (Covered key p k) (r ∷ rows) in
      elim (Bool-cases (p r)) [
        | inl e ↦
            subst Goal {x = r ∷ keep p rows} (sym (keep_taken p r rows e))
              ((λ _. ground (arith, ==_refl (key r))), Covered-cons key p r (keep p rows) rows rest)
        | inr e ↦
            subst Goal {x = keep p rows} (sym (keep_passed p r rows e)) ((λ h. absurd (cc)), rest)
      ]

  pub count_nowhere : (q : A → Bool) → ((r : A) → q r ≡ false) → (rows : List A) → count q rows ≡ 0
  count_nowhere q h [] = refl
  count_nowhere q h (r ∷ rows) = rw (h r) (count_nowhere q h rows)

  pub delete-count :
      (q p : A → Bool) (rows : List A) → count q rows ≤ count q (delete_where p rows) + count p rows
  delete-count q p [] = omega arith
  delete-count q p (r ∷ rows) = ground (arith, delete-count q p rows)

  -- Where one row has the key and the test does not pass it, a deletion by the key leaves the count.
  pub count-delete_found :
      (q p : A → Bool) (rows : List A) (a : A)
      → find p rows ≡ some a
      → q a ≡ false
      → count p rows ≤ 1
      → count q (delete_where p rows) ≡ count q rows
  count-delete_found q p [] a h miss key = refl
  count-delete_found q p (r ∷ rows) a h miss key = elim (Bool-cases (p r)) [
    | inl e ↦
        let same_row : r ≡ a = cc (rw e at h) in
        let none_left : count p rows ≡ 0 = ground (arith, rw e at key) in
        rw (e, delete_where_none p rows none_left, same_row, miss) refl
    | inr e ↦ rw e (ground (arith, count-delete_found q p rows a (rw e at h) miss (rw e at key)))
  ]

module _ {ℓ κ} {A : Type ℓ} {B : Type κ} where
  pub any-map :
      (q : B → Bool) (f : A → B) (rows : List A) → any q (map f rows) ≡ any (λ r. q (f r)) rows
  any-map q f [] = refl
  any-map q f (r ∷ rows) = rw (any-map q f rows)

  pub count-map :
      (q : B → Bool) (f : A → B) (rows : List A) → count q (map f rows) ≡ count (λ r. q (f r)) rows
  count-map q f [] = refl
  count-map q f (r ∷ rows) = rw (count-map q f rows)

  pub All-map_rows {ι} :
      (P : B → Type ι) (f : A → B) (rows : List A) → All (λ r. P (f r)) rows → All P (map f rows)
  All-map_rows P f [] _ = tt
  All-map_rows P f (r ∷ rows) (x, xs) = (x, All-map_rows P f rows xs)
