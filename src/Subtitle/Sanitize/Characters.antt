-- ===== src/Subtitle/Sanitize/Characters.antt =====
-- internal/subtitle/subtitle.go: no control character comes through sanitizeText, and trimming twice is
-- trimming once.
use moan_subs.Prelude.{
  ℕ, zero, suc, ◌≡◌, refl, sym, ap, ◌∙◌, ◌⊎◌, Bool, true, false, ◌&&◌, ◌||◌, [], ◌∷◌, ◌++◌, none,
  some, arith, ◌==◌, if◌then◌else◌, keep, map, Bool-cases, Option-cases, inl, inr, all,
}
use moan_subs.Prelude.Text.{Text, codes}
use moan_subs.Prelude.Unicode.{
  is_space, is_control, trim_left, trim_right, trim_space, cons_unless_blank,
}
use moan_subs.Subtitle.Sanitize.{
  is_kept_character, collapse_control_chars, is_allowed, park, is_closing, replacement, tag_at,
  strip_tags, drop_brackets, unpark, clean_markup, lower_name,
}
use moan_subs.Subtitle.Sanitize.Markup.{allowed-cases, tag_at-parts}
use moan_subs.Subtitle.Sanitize.Trimmed.{right-cases}

-- A character that is kept, or a sentinel.
abbrev is_parked_character : ℕ → Bool
is_parked_character c = is_kept_character c || c == 0 || c == 1

pub all-append : (p : ℕ → Bool) (s t : Text) → all p (s ++ t) ≡ (all p s && all p t)
all-append p [] t = refl
all-append p (c ∷ s) t = ground (arith, all-append p s t)

pub all-weaken :
    (p q : ℕ → Bool)
    → ((c : ℕ) → p c ≡ true → q c ≡ true)
    → (s : Text) → all p s ≡ true
    → all q s ≡ true
all-weaken p q h [] _ = refl
all-weaken p q h (c ∷ s) e = ground (arith, h c, all-weaken p q h s)

all-keep_self : (p : ℕ → Bool) (s : Text) → all p (keep p s) ≡ true
all-keep_self p [] = refl
all-keep_self p (c ∷ s) = elim (Bool-cases (p c)) [
  | inl e ↦ rw (e, e) (all-keep_self p s)
  | inr e ↦ rw e (all-keep_self p s)
]

all-keep_other : (p q : ℕ → Bool) (s : Text) → all p s ≡ true → all p (keep q s) ≡ true
all-keep_other p q [] h = refl
all-keep_other p q (c ∷ s) h = ground (arith, all-keep_other p q s)

park-kept :
    (closing : Bool) (name : Text)
    → (name ≡ codes "i") ⊎ (name ≡ codes "b")
    → all is_parked_character (park closing name) ≡ true
unfolding is_control
park-kept true name (inl e) = rw e refl
park-kept true name (inr e) = rw e refl
park-kept false name (inl e) = rw e refl
park-kept false name (inr e) = rw e refl

replacement-kept : (inside name : Text) → all is_parked_character (replacement inside name) ≡ true
unfolding replacement is_control
replacement-kept inside name = elim (Bool-cases (is_allowed (map lower_name name))) [
  | inr e ↦ rw e refl
  | inl e ↦
      rw e (
        park-kept (is_closing inside) (map lower_name name) (allowed-cases (map lower_name name) e))
]

strip_tags-kept :
    (skip : ℕ) (s : Text)
    → all is_parked_character s ≡ true
    → all is_parked_character (strip_tags skip s) ≡ true
unfolding strip_tags
strip_tags-kept skip [] h = refl
strip_tags-kept (suc skip) (c ∷ s) h = strip_tags-kept skip s (ground arith)
strip_tags-kept zero (c ∷ s) h = elim (Option-cases (if c == b'<' then tag_at s else none)) [
  | inl e ↦ rw (e, strip_tags) (ground (arith, strip_tags-kept zero s))
  | inr (t, e) ↦
      let found : tag_at s ≡ some t = ground arith in
      let (inside, name, same) = tag_at-parts s t found in
      rw (e, strip_tags)
        (all-append is_parked_character t.0 (strip_tags t.1 s)
          ∙ ground (
            arith,
            ap (λ (m : Text × ℕ). all is_parked_character m.0) same ∙ replacement-kept inside name,
            strip_tags-kept t.1 s,
          ))
]

unpark-kept :
    (s : Text) → all is_parked_character s ≡ true → all is_kept_character (map unpark s) ≡ true
unfolding is_control
unpark-kept [] h = refl
unpark-kept (c ∷ s) h = ground (arith, unpark-kept s)

pub clean_markup-kept : (s : Text) → all is_kept_character (clean_markup s) ≡ true
unfolding clean_markup collapse_control_chars drop_brackets
clean_markup-kept s =
    let collapsed = collapse_control_chars s in
    unpark-kept (drop_brackets (strip_tags zero collapsed)) (
      all-keep_other is_parked_character _ (strip_tags zero collapsed) (
        strip_tags-kept zero collapsed (
          all-weaken is_kept_character is_parked_character (λ c h. ground arith) collapsed
            (all-keep_self is_kept_character s))))

left-starts :
    (s : Text)
    → (trim_left s ≡ []) ⊎ ((c : ℕ) × (t : Text) × (trim_left s ≡ c ∷ t) × (is_space c ≡ false))
unfolding trim_left
left-starts [] = inl refl
left-starts (c ∷ s) = elim (Bool-cases (is_space c)) [
  | inl e ↦ rw e (left-starts s)
  | inr e ↦ inr (c, s, rw e refl, e)
]

right_idem : (s : Text) → trim_right (trim_right s) ≡ trim_right s
unfolding trim_right
right_idem [] = refl
right_idem (c ∷ s) = elim (right-cases c s) [
  | inl e ↦ ap trim_right e ∙ ap (cons_unless_blank c) (right_idem s)
  | inr (_, _, e) ↦ rw e refl
]

left_kept : (c : ℕ) (r : Text) → is_space c ≡ false → trim_left (c ∷ r) ≡ c ∷ r
unfolding trim_left
left_kept c r e = rw e refl

pub trim_space_idem : (s : Text) → trim_space (trim_space s) ≡ trim_space s
unfolding trim_space trim_left trim_right
trim_space_idem s = elim (left-starts s) [
  | inl e ↦ ap (λ (t : Text). trim_right (trim_left (trim_right t))) e ∙ sym (ap trim_right e)
  | inr (c, t, e, visible) ↦ elim (right-cases c t) [
    | inr (space, _, _) ↦ absurd (cc)
    | inl f ↦
        let k : trim_right (trim_left s) ≡ c ∷ trim_right t = ap trim_right e ∙ f in
        ap (λ (x : Text). trim_right (trim_left x)) k
        ∙ ap trim_right (left_kept c (trim_right t) visible)
        ∙ ap trim_right (sym k)
        ∙ right_idem (trim_left s)
  ]
]
