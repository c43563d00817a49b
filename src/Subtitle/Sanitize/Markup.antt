-- ===== src/Subtitle/Sanitize/Markup.antt =====
-- internal/subtitle/subtitle.go: the opening brackets that sanitizeText leaves.
use moan_subs.Prelude.{
  ℕ, zero, suc, ◌≡◌, refl, ap, ◌∙◌, Bool, true, false, not, ◌&&◌, ◌||◌, [], ◌∷◌, ◌++◌, none, some,
  arith, ◌==◌, if◌then◌else◌, map, All, All-kept, Bool-cases, Option-cases, inl, inr, ◌⊎◌, length,
}
use moan_subs.Prelude.Text.{Text, codes, text_eq, eq-text_eq}
use moan_subs.Prelude.Unicode.{is_control}
use moan_subs.Subtitle.Sanitize.{
  is_kept_character, collapse_control_chars, is_allowed, park, is_closing, replacement, tag_at,
  strip_tags, drop_brackets, unpark, clean_markup, lower_name, until_bracket, tag_name,
}

-- The name of an allowed tag and its closing character, with or without a slash before them.
abbrev pub names_tag : ℕ → Text → Bool
names_tag end [] = false
names_tag end (c ∷ []) = false
names_tag end (c ∷ d ∷ s) = (c == b'i' || c == b'b') && d == end

abbrev pub marks_tag : ℕ → Text → Bool
marks_tag end [] = false
marks_tag end (c ∷ s) = if c == b'/' then names_tag end s else names_tag end (c ∷ s)

-- Every opening character begins an allowed tag without attributes.
unfoldable pub only_tags : ℕ → ℕ → Text → Bool
only_tags start end [] = true
only_tags start end (c ∷ s) =
    let rest = only_tags start end s in (if c == start then marks_tag end s else true) && rest

abbrev pub Lacks : ℕ → Text → Type 0
Lacks d = All (λ c. (c == d) ≡ false)

pub allowed-cases : (name : Text) → is_allowed name ≡ true → (name ≡ codes "i") ⊎ (name ≡ codes "b")
allowed-cases name h = elim (Bool-cases (text_eq name (codes "i"))) [
  | inl e ↦ inl (eq-text_eq name (codes "i") e)
  | inr e ↦ inr (eq-text_eq name (codes "b") (ground arith))
]

park-tags :
    (closing : Bool) (name rest : Text)
    → is_allowed name ≡ true
    → only_tags 0 1 rest ≡ true
    → only_tags 0 1 (park closing name ++ rest) ≡ true
unfolding only_tags
park-tags true name rest allowed h = elim (allowed-cases name allowed) [
  | inl e ↦ rw e h
  | inr e ↦ rw e h
]
park-tags false name rest allowed h = elim (allowed-cases name allowed) [
  | inl e ↦ rw e h
  | inr e ↦ rw e h
]

replacement-tags :
    (inside name rest : Text)
    → only_tags 0 1 rest ≡ true
    → only_tags 0 1 (replacement inside name ++ rest) ≡ true
unfolding replacement
replacement-tags inside name rest h = elim (Bool-cases (is_allowed (map lower_name name))) [
  | inl e ↦ rw e (park-tags (is_closing inside) (map lower_name name) rest e h)
  | inr e ↦ rw e h
]

-- What a tag is replaced by, in the text up to its closing bracket and its name.
pub tag_at-parts :
    (s : Text) (t : Text × ℕ)
    → tag_at s ≡ some t
    → (inside : Text) × (name : Text) × (t ≡ (replacement inside name, suc (length inside)))
unfolding tag_at
tag_at-parts s t h = elim (Option-cases (until_bracket s)) [
  | inl e ↦ absurd (cc (rw (e, tag_at) at h))
  | inr (inside, e) ↦ elim (Option-cases (tag_name inside)) [
    | inl d ↦ absurd (cc (rw (e, d, tag_at) at h))
    | inr (name, d) ↦ (inside, name, cc (rw (e, d, tag_at) at h))
  ]
]

tag_at-tags :
    (s rest : Text) (t : Text × ℕ)
    → tag_at s ≡ some t
    → only_tags 0 1 rest ≡ true
    → only_tags 0 1 (t.0 ++ rest) ≡ true
tag_at-tags s rest t h tags =
    let (inside, name, same) = tag_at-parts s t h in
    ap (λ (m : Text × ℕ). only_tags 0 1 (m.0 ++ rest)) same ∙ replacement-tags inside name rest tags

strip_tags-tags : (skip : ℕ) (s : Text) → Lacks 0 s → only_tags 0 1 (strip_tags skip s) ≡ true
unfolding strip_tags only_tags
strip_tags-tags skip [] _ = refl
strip_tags-tags (suc skip) (c ∷ s) (_, hs) = strip_tags-tags skip s hs
strip_tags-tags zero (c ∷ s) (h, hs) = elim (Option-cases (if c == b'<' then tag_at s else none)) [
  | inl e ↦ rw (e, strip_tags) (rw (h) (strip_tags-tags zero s hs))
  | inr (t, e) ↦
      rw (e, strip_tags)
        (let found : tag_at s ≡ some t = ground arith in
          tag_at-tags s (strip_tags t.1 s) t found (strip_tags-tags t.1 s hs))
]

drop-names : (s : Text) → names_tag 1 s ≡ true → names_tag 1 (drop_brackets s) ≡ true
unfolding drop_brackets
drop-names [] h = absurd (cc)
drop-names (c ∷ []) h = absurd (cc)
drop-names (c ∷ d ∷ s) h =
    let kept : (c == b'<') ≡ false = ground arith in
    let kept' : (d == b'<') ≡ false = ground arith in rw (kept, kept') h

names-kept : (c : ℕ) (s : Text) → names_tag 1 (c ∷ s) ≡ true → (c == b'<') ≡ false
names-kept c [] h = absurd (cc)
names-kept c (d ∷ s) h = ground arith

drop-marks : (s : Text) → marks_tag 1 s ≡ true → marks_tag 1 (drop_brackets s) ≡ true
unfolding drop_brackets
drop-marks [] h = absurd (cc)
drop-marks (c ∷ s) h = elim (Bool-cases (c == b'/')) [
  | inl e ↦
      let kept : (c == b'<') ≡ false = ground arith in rw kept (rw e (drop-names s (rw e at h)))
  | inr e ↦
      let named : names_tag 1 (c ∷ s) ≡ true = rw e at h in
      let kept = names-kept c s named in rw kept (rw e (rw kept at (drop-names (c ∷ s) named)))
]

drop_brackets-tags : (s : Text) → only_tags 0 1 s ≡ true → only_tags 0 1 (drop_brackets s) ≡ true
unfolding drop_brackets only_tags
drop_brackets-tags [] h = refl
drop_brackets-tags (c ∷ s) h = elim (Bool-cases (c == b'<')) [
  | inl e ↦ rw e (drop_brackets-tags s (ground arith))
  | inr e ↦ rw e (ground (arith, drop_brackets-tags s, drop-marks s))
]

unpark-marks : (s : Text) → marks_tag 1 s ≡ true → marks_tag b'>' (map unpark s) ≡ true
unpark-marks [] h = absurd (cc)
unpark-marks (c ∷ []) h = ground arith
unpark-marks (c ∷ d ∷ []) h = ground arith
unpark-marks (c ∷ d ∷ e ∷ s) h = ground arith

unpark-tags :
    (s : Text) → Lacks b'<' s → only_tags 0 1 s ≡ true → only_tags b'<' b'>' (map unpark s) ≡ true
unfolding only_tags
unpark-tags [] _ h = refl
unpark-tags (c ∷ s) (x, xs) h = ground (arith, unpark-tags s xs, unpark-marks s)

kept_character : (c : ℕ) → is_kept_character c ≡ true → (c == 0) ≡ false
unfolding is_control
kept_character c h = ground arith

-- Every opening bracket of the cleaned text begins an allowed tag.
pub clean_markup-tags : (s : Text) → only_tags b'<' b'>' (clean_markup s) ≡ true
unfolding clean_markup collapse_control_chars drop_brackets
clean_markup-tags s =
    let collapsed = collapse_control_chars s in
    let stripped = strip_tags zero collapsed in
    unpark-tags (drop_brackets stripped)
      (All-kept (λ c. (c == b'<') ≡ false) (λ c. not (c == b'<')) (λ c h. ground arith) stripped)
      (drop_brackets-tags stripped (
        strip_tags-tags zero collapsed
          (All-kept (λ c. (c == 0) ≡ false) is_kept_character kept_character s)))
