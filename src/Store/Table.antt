-- ===== src/Store/Table.antt =====
-- SQL tables as lists of rows: what UPDATE … WHERE, DELETE … WHERE and the aggregates of the queries
-- in internal/store/ do. A count of affected rows is `count` of the same test.
pub mod Upsert
pub mod Max
pub mod Keep
pub mod Order
pub mod Find
use moan_subs.Prelude.{
  ℕ, suc, ◌+◌, ◌≤◌, ◌≡◌, refl, ap, Bool, true, false, not, List, [], ◌∷◌, ◌++◌, Option, none, some,
  arith, ◌==◌, if◌then◌else◌, count, keep, All, length, Bool-cases, max, ltb, find, inl, inr,
  ==_refl,
}

-- A nullable number compared with a number: NULL is never equal.
abbrev pub is_id : ℕ → Option ℕ → Bool
is_id n none = false
is_id n (some m) = m == n

abbrev pub is_null {ℓ} : {A : Type ℓ} → Option A → Bool
is_null none = true
is_null (some a) = false

module _ {ℓ} {A : Type ℓ} where
  abbrev pub update_where : (A → Bool) → (A → A) → List A → List A
  update_where p f [] = []
  update_where p f (r ∷ rs) = (if p r then f r else r) ∷ update_where p f rs

  abbrev pub delete_where : (A → Bool) → List A → List A
  delete_where p [] = []
  delete_where p (r ∷ rs) = if p r then delete_where p rs else r ∷ delete_where p rs

  -- COALESCE(MAX(f) FILTER (WHERE p), 0).
  abbrev pub max_where : (A → Bool) → (A → ℕ) → List A → ℕ
  max_where p f [] = 0
  max_where p f (r ∷ rs) = if p r then max (f r) (max_where p f rs) else max_where p f rs

  -- An update that a test does not see leaves the count of that test.
  pub count-update_where :
      (q p : A → Bool) (f : A → A)
      → ((r : A) → p r ≡ true → q (f r) ≡ q r)
      → (rs : List A) → count q (update_where p f rs) ≡ count q rs
  count-update_where q p f h [] = refl
  count-update_where q p f h (r ∷ rs) = elim (Bool-cases (p r)) [
    | inl e ↦ rw (e, h r e, count-update_where q p f h rs)
    | inr e ↦ rw (e, count-update_where q p f h rs)
  ]

  pub All-update_where {κ ι} :
      {P : A → Type κ} {Q : A → Type ι} (p : A → Bool) (f : A → A)
      → ((r : A) → P r → p r ≡ true → Q (f r))
      → ((r : A) → P r → p r ≡ false → Q r)
      → (rs : List A) → All P rs
      → All Q (update_where p f rs)
  All-update_where p f hit miss [] _ = tt
  All-update_where p f hit miss (r ∷ rs) (x, xs) = elim (Bool-cases (p r)) [
    | inl e ↦ (rw e (hit r x e), All-update_where p f hit miss rs xs)
    | inr e ↦ (rw e (miss r x e), All-update_where p f hit miss rs xs)
  ]

  pub All-map {κ ι} :
      {P : A → Type κ} {Q : A → Type ι}
      → ((r : A) → P r → Q r)
      → (rs : List A) → All P rs
      → All Q rs
  All-map h [] _ = tt
  All-map h (r ∷ rs) (x, xs) = (h r x, All-map h rs xs)

  pub All-and {κ ι} :
      (P : A → Type κ) (Q : A → Type ι) (rs : List A)
      → All P rs
      → All Q rs
      → All (λ r. P r × Q r) rs
  All-and P Q [] _ _ = tt
  All-and P Q (r ∷ rs) (x, xs) (y, ys) = ((x, y), All-and P Q rs xs ys)

  -- A deletion leaves the count of a test that passes no deleted row.
  pub count-delete_where :
      (q p : A → Bool)
      → ((r : A) → p r ≡ true → q r ≡ false)
      → (rs : List A) → count q (delete_where p rs) ≡ count q rs
  count-delete_where q p h [] = refl
  count-delete_where q p h (r ∷ rs) = elim (Bool-cases (p r)) [
    | inl e ↦ rw (e, h r e, count-delete_where q p h rs)
    | inr e ↦ rw (e, count-delete_where q p h rs)
  ]

  -- No row that a deletion names is left.
  pub count-delete_where_self : (p : A → Bool) (rs : List A) → count p (delete_where p rs) ≡ 0
  count-delete_where_self p [] = refl
  count-delete_where_self p (r ∷ rs) = elim (Bool-cases (p r)) [
    | inl e ↦ rw e (count-delete_where_self p rs)
    | inr e ↦ rw (e, e) (count-delete_where_self p rs)
  ]

  pub delete_where_none : (p : A → Bool) (rs : List A) → count p rs ≡ 0 → delete_where p rs ≡ rs
  delete_where_none p [] h = refl
  delete_where_none p (r ∷ rs) h = ground (arith, delete_where_none p rs)

  pub delete_where_idem :
      (p : A → Bool) (rs : List A) → delete_where p (delete_where p rs) ≡ delete_where p rs
  delete_where_idem p rs = delete_where_none p (delete_where p rs) (count-delete_where_self p rs)

  pub All-delete_where {κ} :
      (P : A → Type κ) (p : A → Bool) (rs : List A) → All P rs → All P (delete_where p rs)
  All-delete_where P p [] _ = tt
  All-delete_where P p (r ∷ rs) (x, xs) = elim (Bool-cases (p r)) [
    | inl e ↦ rw e (All-delete_where P p rs xs)
    | inr e ↦ rw e (x, All-delete_where P p rs xs)
  ]

  -- The maximum bounds every row that it ranges over.
  pub max_where-bound :
      (p : A → Bool) (f : A → ℕ) (m : ℕ) (rs : List A)
      → max_where p f rs ≤ m
      → All (λ r. p r ≡ true → f r ≤ m) rs
  max_where-bound p f m [] h = tt
  max_where-bound p f m (r ∷ rs) h = (λ e. ground arith, max_where-bound p f m rs (ground arith))

  pub length-keep : (p : A → Bool) (rs : List A) → length (keep p rs) ≡ count p rs
  length-keep p [] = refl
  length-keep p (r ∷ rs) = ground (arith, length-keep p rs)

  -- A second update under one key that overwrites the first is all that is left of the two.
  pub update-update :
      (p : A → Bool) (f g : A → A)
      → ((r : A) → p r ≡ true → (p (f r) ≡ true) × (g (f r) ≡ g r))
      → (rs : List A) → update_where p g (update_where p f rs) ≡ update_where p g rs
  update-update p f g same [] = refl
  update-update p f g same (r ∷ rs) = elim (Bool-cases (p r)) [
    | inl e ↦ let (a, b) = same r e in rw (e, a, b, update-update p f g same rs)
    | inr e ↦ rw (e, e, update-update p f g same rs)
  ]
