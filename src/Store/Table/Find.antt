-- ===== src/Store/Table/Find.antt =====
-- The row that a query finds first, after insertions, deletions and further conditions.
use moan_subs.Prelude.{
  ◌≡◌, refl, sym, Bool, true, false, ◌&&◌, List, [], ◌∷◌, ◌++◌, none, some, arith, any, find,
  Bool-cases, inl, inr,
}
use moan_subs.Store.Table.{delete_where}

pub find-delete_where {ℓ} :
    {A : Type ℓ} (p q : A → Bool) (rows : List A) (s : A)
    → find p rows ≡ some s
    → q s ≡ false
    → find p (delete_where q rows) ≡ some s
find-delete_where p q [] s h miss = absurd (cc)
find-delete_where p q (r ∷ rows) s h miss = elim (Bool-cases (p r)) [
  | inl e ↦ let same_row : r ≡ s = cc (rw e at h) in rw (same_row, miss) (rw (sym same_row, e) refl)
  | inr e ↦ elim (Bool-cases (q r)) [
    | inl d ↦ rw d (find-delete_where p q rows s (rw e at h) miss)
    | inr d ↦ rw (d, e) (find-delete_where p q rows s (rw e at h) miss)
  ]
]

pub find-append_left {ℓ} :
    {A : Type ℓ} (p : A → Bool) (rows more : List A) (s : A)
    → find p rows ≡ some s
    → find p (rows ++ more) ≡ some s
find-append_left p [] more s h = absurd (cc)
find-append_left p (r ∷ rows) more s h = elim (Bool-cases (p r)) [
  | inl e ↦ rw e (rw e at h)
  | inr e ↦ rw e (find-append_left p rows more s (rw e at h))
]

pub find-append_right {ℓ} :
    {A : Type ℓ} (p : A → Bool) (rows : List A) (s : A)
    → any p rows ≡ false
    → p s ≡ true
    → find p (rows ++ s ∷ []) ≡ some s
find-append_right p [] s h e = rw e
find-append_right p (r ∷ rows) s h e = elim (Bool-cases (p r)) [
  | inl d ↦ absurd (ground arith)
  | inr d ↦ rw d (find-append_right p rows s (rw d at h) e)
]

pub find-and {ℓ} :
    {A : Type ℓ} (p q : A → Bool) (rows : List A) (s : A)
    → find p rows ≡ some s
    → q s ≡ true
    → find (λ r. p r && q r) rows ≡ some s
find-and p q [] s h e = absurd (cc)
find-and p q (r ∷ rows) s h e = elim (Bool-cases (p r)) [
  | inl d ↦ let same_row : r ≡ s = cc (rw d at h) in rw (d, same_row, e) refl
  | inr d ↦ rw d (find-and p q rows s (rw d at h) e)
]

pub any-delete_where {ℓ} :
    {A : Type ℓ} (p q : A → Bool) (rows : List A)
    → any p rows ≡ false
    → any p (delete_where q rows) ≡ false
any-delete_where p q [] h = refl
any-delete_where p q (r ∷ rows) h = ground (arith, any-delete_where p q rows)

pub any-find {ℓ} :
    {A : Type ℓ} (p : A → Bool) (rows : List A) (s : A) → find p rows ≡ some s → any p rows ≡ true
any-find p [] s h = absurd (cc)
any-find p (r ∷ rows) s h = ground (arith, any-find p rows s)

pub any-found {ℓ} :
    {A : Type ℓ} (p : A → Bool) (rows : List A)
    → any p rows ≡ true
    → (r : A) × (find p rows ≡ some r)
any-found p [] h = absurd (cc)
any-found p (r ∷ rows) h = elim (Bool-cases (p r)) [
  | inl e ↦ (r, rw e)
  | inr e ↦ let (s, d) = any-found p rows (rw e at h) in (s, rw e d)
]

pub find-none {ℓ} :
    {A : Type ℓ} (p : A → Bool) (rows : List A) → any p rows ≡ false → find p rows ≡ none
find-none p [] h = refl
find-none p (r ∷ rows) h = ground (arith, find-none p rows)

pub any-append_last {ℓ} :
    {A : Type ℓ} (p : A → Bool) (rows : List A) (r : A) → p r ≡ true → any p (rows ++ r ∷ []) ≡ true
any-append_last p [] r h = rw h
any-append_last p (s ∷ rows) r h = ground (arith, any-append_last p rows r h)

pub find-append_miss {ℓ} :
    {A : Type ℓ} (p : A → Bool) (rows : List A) (r : A)
    → p r ≡ false
    → find p (rows ++ r ∷ []) ≡ find p rows
find-append_miss p [] r h = rw h
find-append_miss p (s ∷ rows) r h = rw (find-append_miss p rows r h)

pub find-delete_self {ℓ} :
    {A : Type ℓ} (p : A → Bool) (rows : List A) → find p (delete_where p rows) ≡ none
find-delete_self p [] = refl
find-delete_self p (r ∷ rows) = elim (Bool-cases (p r)) [
  | inl e ↦ rw e (find-delete_self p rows)
  | inr e ↦ rw (e, e) (find-delete_self p rows)
]

pub find-delete_other {ℓ} :
    {A : Type ℓ} (p q : A → Bool)
    → ((r : A) → p r ≡ true → q r ≡ false)
    → (rows : List A) → find q (delete_where p rows) ≡ find q rows
find-delete_other p q apart [] = refl
find-delete_other p q apart (r ∷ rows) = elim (Bool-cases (p r)) [
  | inl e ↦ rw (e, apart r e) (find-delete_other p q apart rows)
  | inr e ↦ rw (e, find-delete_other p q apart rows)
]
