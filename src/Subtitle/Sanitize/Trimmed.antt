-- ===== src/Subtitle/Sanitize/Trimmed.antt =====
-- internal/subtitle/subtitle.go: what strings.TrimSpace keeps of a sanitized text.
use moan_subs.Prelude.{
  ℕ, zero, suc, ◌≡◌, refl, sym, ap, ◌∙◌, Bool, true, false, [], ◌∷◌, arith, ◌==◌, ◌⊎◌, ◌≤◌,
  Bool-cases, inl, inr, all,
}
use moan_subs.Prelude.Text.{Text}
use moan_subs.Prelude.Unicode.{is_space, trim_left, trim_right, trim_space, cons_unless_blank}
use moan_subs.Subtitle.Sanitize.Markup.{names_tag, marks_tag, only_tags}
use moan_subs.Subtitle.Sanitize.Arrows.{arrow_free}

-- A text is empty or begins with a character.
pub right-cases :
    (c : ℕ) (s : Text)
    → (trim_right (c ∷ s) ≡ c ∷ trim_right s)
      ⊎ ((is_space c ≡ true) × (trim_right s ≡ []) × (trim_right (c ∷ s) ≡ []))
unfolding trim_right
right-cases c s = cases (trim_right s)
  where
    cases :
        (t : Text)
        → (cons_unless_blank c t ≡ c ∷ t)
          ⊎ ((is_space c ≡ true) × (t ≡ []) × (cons_unless_blank c t ≡ []))
    cases [] = elim (Bool-cases (is_space c)) [ inl e ↦ inr (e, refl, rw e) | inr e ↦ inl (rw e) ]
    cases (d ∷ t) = inl refl

left-tags : (s : Text) → only_tags b'<' b'>' s ≡ true → only_tags b'<' b'>' (trim_left s) ≡ true
unfolding only_tags trim_left
left-tags [] h = refl
left-tags (c ∷ s) h = elim (Bool-cases (is_space c)) [
  | inl e ↦ rw e (left-tags s (ground arith))
  | inr e ↦ rw e h
]

arrow_free_mono : (m n : ℕ) (s : Text) → m ≤ n → arrow_free n s ≡ true → arrow_free m s ≡ true
unfolding arrow_free
arrow_free_mono m n [] le h = refl
arrow_free_mono m n (c ∷ s) le h = ground (arith, arrow_free_mono (suc m) (suc n) s)

pub left-step : (c : ℕ) (s : Text) → arrow_free zero (c ∷ s) ≡ true → arrow_free zero s ≡ true
unfolding arrow_free
left-step c s h = elim (Bool-cases (c == b'-')) [
  | inl e ↦ arrow_free_mono 0 1 s (omega arith) (rw e at h)
  | inr e ↦ ground arith
]

left-arrows : (s : Text) → arrow_free zero s ≡ true → arrow_free zero (trim_left s) ≡ true
unfolding trim_left arrow_free
left-arrows [] h = refl
left-arrows (c ∷ s) h = elim (Bool-cases (is_space c)) [
  | inl e ↦ rw e (left-arrows s (left-step c s h))
  | inr e ↦ rw e h
]

right-arrows : (n : ℕ) (s : Text) → arrow_free n s ≡ true → arrow_free n (trim_right s) ≡ true
unfolding arrow_free trim_right
right-arrows n [] h = refl
right-arrows n (c ∷ s) h = elim (right-cases c s) [
  | inl e ↦ rw e (ground (arith, right-arrows (suc n) s, right-arrows zero s))
  | inr (_, _, e) ↦ rw e refl
]

right-names : (s : Text) → names_tag b'>' s ≡ true → names_tag b'>' (trim_right s) ≡ true
unfolding trim_right is_space
right-names [] h = absurd (cc)
right-names (c ∷ []) h = absurd (cc)
right-names (c ∷ d ∷ s) h = elim (right-cases c (d ∷ s)) [
  | inl e ↦ elim (right-cases d s) [
    | inl f ↦ ap (names_tag b'>') (e ∙ ap (λ (t : Text). c ∷ t) f) ∙ h
    | inr (space, _, _) ↦ absurd (ground arith)
  ]
  | inr (space, _, _) ↦ absurd (ground arith)
]

space_named : (c : ℕ) (s : Text) → is_space c ≡ true → marks_tag b'>' (c ∷ s) ≡ false
unfolding is_space
space_named c [] e = ground arith
space_named c (d ∷ s) e = ground arith

right-marks : (s : Text) → marks_tag b'>' s ≡ true → marks_tag b'>' (trim_right s) ≡ true
right-marks [] h = absurd (cc)
right-marks (c ∷ s) h = elim (right-cases c s) [
  | inr (space, _, _) ↦ let miss = space_named c s space in absurd (cc)
  | inl e ↦ elim (Bool-cases (c == b'/')) [
    | inl slash ↦ ap (marks_tag b'>') e ∙ rw slash (right-names s (rw slash at h))
    | inr letter ↦
        ap (marks_tag b'>') e
        ∙ rw letter (sym (ap (names_tag b'>') e) ∙ right-names (c ∷ s) (rw letter at h))
  ]
]

right-tags : (s : Text) → only_tags b'<' b'>' s ≡ true → only_tags b'<' b'>' (trim_right s) ≡ true
unfolding only_tags trim_right
right-tags [] h = refl
right-tags (c ∷ s) h = elim (right-cases c s) [
  | inl e ↦ rw e (ground (arith, right-tags s, right-marks s))
  | inr (_, _, e) ↦ rw e refl
]

pub trim_space-tags :
    (s : Text) → only_tags b'<' b'>' s ≡ true → only_tags b'<' b'>' (trim_space s) ≡ true
unfolding trim_space
trim_space-tags s h = right-tags (trim_left s) (left-tags s h)

pub trim_space-arrows :
    (s : Text) → arrow_free zero s ≡ true → arrow_free zero (trim_space s) ≡ true
unfolding trim_space
trim_space-arrows s h = right-arrows zero (trim_left s) (left-arrows s h)

left-all : (p : ℕ → Bool) (s : Text) → all p s ≡ true → all p (trim_left s) ≡ true
unfolding trim_left
left-all p [] h = refl
left-all p (c ∷ s) h = elim (Bool-cases (is_space c)) [
  | inl e ↦ rw e (left-all p s (ground arith))
  | inr e ↦ rw e h
]

right-all : (p : ℕ → Bool) (s : Text) → all p s ≡ true → all p (trim_right s) ≡ true
unfolding trim_right
right-all p [] h = refl
right-all p (c ∷ s) h = elim (right-cases c s) [
  | inl e ↦ rw e (ground (arith, right-all p s))
  | inr (_, _, e) ↦ rw e refl
]

pub trim_space-all : (p : ℕ → Bool) (s : Text) → all p s ≡ true → all p (trim_space s) ≡ true
unfolding trim_space
trim_space-all p s h = right-all p (trim_left s) (left-all p s h)
