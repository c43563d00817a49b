-- ===== src/Store/Table/Max.antt =====
-- MAX over the rows that pass a test, and the first row under a key.
use moan_subs.Prelude.{
  ℕ, ◌≤◌, ◌≡◌, refl, sym, ap, subst, ◌∙◌, Bool, true, false, ◌&&◌, List, [], ◌∷◌, ◌++◌, some, arith,
  ◌==◌, if◌then◌else◌, count, any, find, All, max, Bool-cases, inl, inr,
}
use moan_subs.Store.Table.{max_where, All-map}

module _ {ℓ} {A : Type ℓ} where
  pub max_where-append :
      (p : A → Bool) (f : A → ℕ) (rows : List A) (r : A)
      → max_where p f (rows ++ r ∷ [])
        ≡ (if p r then max (max_where p f rows) (f r) else max_where p f rows)
  max_where-append p f [] r = ground arith
  max_where-append p f (s ∷ rows) r = ground (arith, max_where-append p f rows r)

  pub max_where_mono :
      (p q : A → Bool) (f : A → ℕ)
      → ((r : A) → p r ≡ true → q r ≡ true)
      → (rows : List A) → max_where p f rows ≤ max_where q f rows
  max_where_mono p q f h [] = omega arith
  max_where_mono p q f h (r ∷ rows) = elim (Bool-cases (p r)) [
    | inl e ↦ rw (e, h r e) (omega (arith, max_where_mono p q f h rows))
    | inr e ↦ rw e (ground (arith, max_where_mono p q f h rows))
  ]

  max_where-none :
      (p : A → Bool) (f : A → ℕ) (rows : List A) → any p rows ≡ false → max_where p f rows ≡ 0
  max_where-none p f [] h = refl
  max_where-none p f (r ∷ rows) h = ground (arith, max_where-none p f rows)

  -- The maximum is attained by a row, if there is one.
  pub max_where-attained :
      (p : A → Bool) (f : A → ℕ) (m : ℕ) (rows : List A)
      → any p rows ≡ true
      → m ≡ max_where p f rows
      → any (λ r. p r && f r == m) rows ≡ true
  max_where-attained p f m [] h e = absurd (cc)
  max_where-attained p f m (r ∷ rows) h e = elim (Bool-cases (any p rows)) [
    | inl more ↦ ground (arith, max_where-attained p f m rows more)
    | inr last ↦ ground (arith, max_where-none p f rows last)
  ]

  pub count_mono :
      (p q : A → Bool)
      → ((r : A) → p r ≡ true → q r ≡ true)
      → (rows : List A) → count p rows ≤ count q rows
  count_mono p q h [] = omega arith
  count_mono p q h (r ∷ rows) = elim (Bool-cases (p r)) [
    | inl e ↦ rw (e, h r e) (omega (arith, count_mono p q h rows))
    | inr e ↦ rw e (ground (arith, count_mono p q h rows))
  ]

  pub count-eq :
      (p q : A → Bool) → ((r : A) → p r ≡ q r) → (rows : List A) → count p rows ≡ count q rows
  count-eq p q h [] = refl
  count-eq p q h (r ∷ rows) = rw (h r, count-eq p q h rows)

  -- A row that is found passes the test, and has what all rows have.
  pub find_sound : (p : A → Bool) (rows : List A) (r : A) → find p rows ≡ some r → p r ≡ true
  find_sound p [] r h = absurd (cc)
  find_sound p (s ∷ rows) r h = elim (Bool-cases (p s)) [
    | inl e ↦ let same : s ≡ r = ground arith in ap p (sym same) ∙ e
    | inr e ↦ find_sound p rows r (rw e at h)
  ]

  pub All-find {κ} :
      (P : A → Type κ) (p : A → Bool) (rows : List A) (r : A)
      → All P rows
      → find p rows ≡ some r
      → P r
  All-find P p [] r _ h = absurd (cc)
  All-find P p (s ∷ rows) r (x, xs) h = elim (Bool-cases (p s)) [
    | inl e ↦ let same : s ≡ r = ground arith in subst P same x
    | inr e ↦ All-find P p rows r xs (rw e at h)
  ]

  pub any-none : (p : A → Bool) (rows : List A) → All (λ r. p r ≡ false) rows → any p rows ≡ false
  any-none p [] _ = refl
  any-none p (r ∷ rows) (e, es) = rw e (any-none p rows es)

  none-count : (p : A → Bool) (rows : List A) → count p rows ≡ 0 → All (λ s. p s ≡ false) rows
  none-count p [] h = tt
  none-count p (s ∷ rows) h = elim (Bool-cases (p s)) [
    | inl e ↦ absurd (omega (arith, rw e at h))
    | inr e ↦ (e, none-count p rows (rw e at h))
  ]

  -- Under a unique key, the row that is found is the only one.
  pub find_unique :
      (p : A → Bool) (rows : List A) (r : A)
      → count p rows ≤ 1
      → find p rows ≡ some r
      → All (λ s. p s ≡ true → s ≡ r) rows
  find_unique p [] r h e = tt
  find_unique p (s ∷ rows) r h e = elim (Bool-cases (p s)) [
    | inl hit ↦
        let same : s ≡ r = ground arith in
        let rest : count p rows ≡ 0 = ground arith in
        (λ _. same, All-map (λ t miss t_hit. absurd (cc)) rows (none-count p rows rest))
    | inr miss ↦ (λ hit. absurd (cc), find_unique p rows r (rw miss at h) (rw miss at e))
  ]
