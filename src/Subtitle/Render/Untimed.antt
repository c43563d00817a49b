-- ===== src/Subtitle/Render/Untimed.antt =====
-- internal/subtitle/subtitle.go: a line without an arrow is no timing line.
use moan_subs.Prelude.{
  ℕ, zero, suc, ◌≡◌, refl, sym, ap, ◌∙◌, true, false, ◌&&◌, ◌||◌, [], ◌∷◌, Option, none, some, leb,
  ◌==◌, Bool-cases, Option-cases, inl, inr, ==_iff,
}
use moan_subs.Prelude.Maybe.{◌>>=◌}
use moan_subs.Prelude.Text.{Text}
use moan_subs.Prelude.Unicode.{is_ascii_digit}
use moan_subs.Subtitle.Sanitize.{skip_spaces, is_tag_space}
use moan_subs.Subtitle.Sanitize.Arrows.{arrow_free}
use moan_subs.Subtitle.Sanitize.Trimmed.{left-step}
use moan_subs.Subtitle.Timing.{
  take_digits, found_digits, some_digits, sixty, literal, fraction_point, seconds, time_at,
  times_at, cue_times,
}

found_first {ℓ κ} :
    {A : Type ℓ} {B : Type κ} (m : Option A) (f : A → Option B) (b : B)
    → (m >>= f) ≡ some b
    → (a : A) × (m ≡ some a) × (f a ≡ some b)
found_first none f b h = absurd (cc)
found_first (some a) f b h = (a, refl, h)

taken-free :
    (n : ℕ) (s : Text) → arrow_free zero s ≡ true → arrow_free zero (take_digits n s).1 ≡ true
unfolding take_digits
taken-free zero s h = h
taken-free (suc n) [] h = h
taken-free (suc n) (c ∷ s) h = elim (Bool-cases (is_ascii_digit c)) [
  | inl e ↦ rw e (taken-free n s (left-step c s h))
  | inr e ↦ rw e h
]

found-free :
    (p d : Text × Text)
    → found_digits p ≡ some d
    → arrow_free zero p.1 ≡ true
    → arrow_free zero d.1 ≡ true
found-free ([], s) d h free = absurd (cc)
found-free (c ∷ front, s) d h free = let same : (c ∷ front, s) ≡ d = cc in rw (sym same) free

digits-free :
    (s : Text) (d : Text × Text)
    → some_digits s ≡ some d
    → arrow_free zero s ≡ true
    → arrow_free zero d.1 ≡ true
unfolding some_digits
digits-free s d h free = found-free (take_digits 3 s) d h (taken-free 3 s free)

sixty-free :
    (s : Text) (d : Text × Text)
    → sixty s ≡ some d
    → arrow_free zero s ≡ true
    → arrow_free zero d.1 ≡ true
unfolding sixty
sixty-free [] d h free = absurd (cc)
sixty-free (c ∷ []) d h free = absurd (cc)
sixty-free (c ∷ x ∷ s) d h free = elim (Bool-cases (leb b'0' c && leb c b'5' && is_ascii_digit x)) [
  | inl e ↦
      let same : (c ∷ x ∷ [], s) ≡ d = cc (rw e at h) in
      rw (sym same) (left-step x s (left-step c (x ∷ s) free))
  | inr e ↦ absurd (cc (rw e at h))
]

literal-free :
    (e : ℕ) (s r : Text)
    → literal e s ≡ some r
    → arrow_free zero s ≡ true
    → arrow_free zero r ≡ true
literal-free e [] r h free = absurd (cc)
literal-free e (c ∷ s) r h free = elim (Bool-cases (c == e)) [
  | inl d ↦ let same : s ≡ r = cc (rw d at h) in rw (sym same) (left-step c s free)
  | inr d ↦ absurd (cc (rw d at h))
]

point-free :
    (s r : Text) → fraction_point s ≡ some r → arrow_free zero s ≡ true → arrow_free zero r ≡ true
point-free [] r h free = absurd (cc)
point-free (c ∷ s) r h free = elim (Bool-cases (c == b'.' || c == b',')) [
  | inl d ↦ let same : s ≡ r = cc (rw d at h) in rw (sym same) (left-step c s free)
  | inr d ↦ absurd (cc (rw d at h))
]

time_at-free :
    (s : Text) (t : ℕ × Text)
    → time_at s ≡ some t
    → arrow_free zero s ≡ true
    → arrow_free zero t.1 ≡ true
unfolding time_at
time_at-free s t h free =
    let (d1, e1, h1) = found_first (some_digits s) _ t h in
    let (t2, e2, h2) = found_first (literal b':' d1.1) _ t h1 in
    let (d3, e3, h3) = found_first (sixty t2) _ t h2 in
    let (t4, e4, h4) = found_first (literal b':' d3.1) _ t h3 in
    let (d5, e5, h5) = found_first (sixty t4) _ t h4 in
    let (t6, e6, h6) = found_first (fraction_point d5.1) _ t h5 in
    let (d7, e7, h7) = found_first (some_digits t6) _ t h6 in
    let free6 = point-free d5.1 t6 e6 (
      sixty-free t4 d5 e5 (
        literal-free b':' d3.1 t4 e4
          (sixty-free t2 d3 e3 (literal-free b':' d1.1 t2 e2 (digits-free s d1 e1 free))))) in
    let same : (seconds d1.0 d3.0 d5.0 d7.0, d7.1) ≡ t = cc in
    ap (λ (x : ℕ × Text). arrow_free zero x.1) (sym same) ∙ digits-free t6 d7 e7 free6

spaces-free : (s : Text) → arrow_free zero s ≡ true → arrow_free zero (skip_spaces s) ≡ true
spaces-free [] h = h
spaces-free (c ∷ s) h = elim (Bool-cases (is_tag_space c)) [
  | inl e ↦ rw e (spaces-free s (left-step c s h))
  | inr e ↦ rw e h
]

literal-head : (e : ℕ) (s r : Text) → literal e s ≡ some r → s ≡ e ∷ r
literal-head e [] r h = absurd (cc)
literal-head e (c ∷ s) r h = elim (Bool-cases (c == e)) [
  | inl d ↦
      let same : s ≡ r = cc (rw d at h) in
      ap (λ (x : ℕ). x ∷ s) ((==_iff c e).0 d) ∙ ap (λ (x : Text). e ∷ x) same
  | inr d ↦ absurd (cc (rw d at h))
]

no_arrow : (s : Text) → arrow_free zero (b'-' ∷ b'-' ∷ b'>' ∷ s) ≡ false
unfolding arrow_free
no_arrow s = refl

times_at-found : (s : Text) (t : ℕ × ℕ) → times_at s ≡ some t → arrow_free zero s ≡ false
unfolding times_at
times_at-found s t h = elim (Bool-cases (arrow_free zero s)) [
  | inr e ↦ e
  | inl free ↦
      let (d1, e1, h1) = found_first (time_at s) _ t h in
      let (t2, e2, h2) = found_first (literal b'-' (skip_spaces d1.1)) _ t h1 in
      let (t3, e3, h3) = found_first (literal b'-' t2) _ t h2 in
      let (t4, e4, h4) = found_first (literal b'>' t3) _ t h3 in
      let arrow : skip_spaces d1.1 ≡ b'-' ∷ b'-' ∷ b'>' ∷ t4 =
        literal-head b'-' (skip_spaces d1.1) t2 e2
        ∙ ap (λ (x : Text). b'-' ∷ x)
            (literal-head b'-' t2 t3 e3
              ∙ ap (λ (x : Text). b'-' ∷ x) (literal-head b'>' t3 t4 e4)) in
      let kept = spaces-free d1.1 (time_at-free s d1 e1 free) in
      let lost = ap (arrow_free zero) arrow ∙ no_arrow t4 in absurd (cc)
]

-- A line without an arrow is no timing line.
pub cue_times-none : (s : Text) → arrow_free zero s ≡ true → cue_times s ≡ none
unfolding cue_times
cue_times-none [] h = refl
cue_times-none (c ∷ s) h = elim (Option-cases (times_at (c ∷ s))) [
  | inl e ↦ rw (e, cue_times) (cue_times-none s (left-step c s h))
  | inr (t, e) ↦ let lost = times_at-found (c ∷ s) t e in absurd (cc)
]
