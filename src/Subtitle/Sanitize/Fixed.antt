-- ===== src/Subtitle/Sanitize/Fixed.antt =====
-- internal/subtitle/subtitle.go: markup that is clean is left as it is.
use moan_subs.Prelude.{
  ℕ, zero, suc, ◌≡◌, refl, sym, ap, subst, ◌∙◌, true, [], ◌∷◌, ◌++◌, some, arith, ◌==◌, map,
  Bool-cases, inl, inr, all, ==_iff,
}
use moan_subs.Prelude.Text.{Text}
use moan_subs.Prelude.Unicode.{is_control}
use moan_subs.Subtitle.Sanitize.{
  is_kept_character, collapse_control_chars, tag_at, strip_tags, drop_brackets, unpark,
  clean_markup,
}
use moan_subs.Subtitle.Sanitize.Markup.{names_tag, marks_tag, only_tags}

-- What the later steps make of a text with parked tags.
abbrev restored : Text → Text
restored s = map unpark (drop_brackets s)

abbrev pass : ℕ → Text → Text
pass zero s = s
pass (suc n) [] = []
pass (suc n) (c ∷ s) = pass n s

tag_at-i : (s : Text) → tag_at (b'i' ∷ b'>' ∷ s) ≡ some (0 ∷ b'i' ∷ 1 ∷ [], 2)
unfolding tag_at moan_subs.Subtitle.Sanitize.until_bracket moan_subs.Subtitle.Sanitize.tag_name
    moan_subs.Subtitle.Sanitize.name_rest moan_subs.Subtitle.Sanitize.replacement
tag_at-i s = refl

tag_at-b : (s : Text) → tag_at (b'b' ∷ b'>' ∷ s) ≡ some (0 ∷ b'b' ∷ 1 ∷ [], 2)
unfolding tag_at moan_subs.Subtitle.Sanitize.until_bracket moan_subs.Subtitle.Sanitize.tag_name
    moan_subs.Subtitle.Sanitize.name_rest moan_subs.Subtitle.Sanitize.replacement
tag_at-b s = refl

tag_at-close_i : (s : Text) → tag_at (b'/' ∷ b'i' ∷ b'>' ∷ s) ≡ some (0 ∷ b'/' ∷ b'i' ∷ 1 ∷ [], 3)
unfolding tag_at moan_subs.Subtitle.Sanitize.until_bracket moan_subs.Subtitle.Sanitize.tag_name
    moan_subs.Subtitle.Sanitize.name_rest moan_subs.Subtitle.Sanitize.replacement
tag_at-close_i s = refl

tag_at-close_b : (s : Text) → tag_at (b'/' ∷ b'b' ∷ b'>' ∷ s) ≡ some (0 ∷ b'/' ∷ b'b' ∷ 1 ∷ [], 3)
unfolding tag_at moan_subs.Subtitle.Sanitize.until_bracket moan_subs.Subtitle.Sanitize.tag_name
    moan_subs.Subtitle.Sanitize.name_rest moan_subs.Subtitle.Sanitize.replacement
tag_at-close_b s = refl

restored-append : (s t : Text) → restored (s ++ t) ≡ restored s ++ restored t
unfolding drop_brackets
restored-append [] t = refl
restored-append (c ∷ s) t = elim (Bool-cases (c == b'<')) [
  | inl e ↦ rw e (restored-append s t)
  | inr e ↦ rw e (ap (λ (r : Text). unpark c ∷ r) (restored-append s t))
]

-- The tag at an opening bracket is parked, and restored to what it was.
abbrev IsMarked : Text → Type 0
IsMarked s = (t : Text × ℕ) × (tag_at s ≡ some t) × (restored t.0 ++ pass t.1 s ≡ b'<' ∷ s)

open-IsMarked : (c d : ℕ) (s : Text) → names_tag b'>' (c ∷ d ∷ s) ≡ true → IsMarked (c ∷ d ∷ s)
unfolding drop_brackets
open-IsMarked c d s h =
    let end : d ≡ b'>' = (==_iff d b'>').0 (ground arith) in
    elim (Bool-cases (c == b'i')) [
      | inl e ↦
          let letter : c ≡ b'i' = (==_iff c b'i').0 e in
          rw (letter, end) ((0 ∷ b'i' ∷ 1 ∷ [], 2), tag_at-i s, refl)
      | inr e ↦
          let letter : c ≡ b'b' = (==_iff c b'b').0 (ground arith) in
          rw (letter, end) ((0 ∷ b'b' ∷ 1 ∷ [], 2), tag_at-b s, refl)
    ]

close-IsMarked :
    (c d : ℕ) (s : Text) → names_tag b'>' (c ∷ d ∷ s) ≡ true → IsMarked (b'/' ∷ c ∷ d ∷ s)
unfolding drop_brackets
close-IsMarked c d s h =
    let end : d ≡ b'>' = (==_iff d b'>').0 (ground arith) in
    elim (Bool-cases (c == b'i')) [
      | inl e ↦
          let letter : c ≡ b'i' = (==_iff c b'i').0 e in
          rw (letter, end) ((0 ∷ b'/' ∷ b'i' ∷ 1 ∷ [], 3), tag_at-close_i s, refl)
      | inr e ↦
          let letter : c ≡ b'b' = (==_iff c b'b').0 (ground arith) in
          rw (letter, end) ((0 ∷ b'/' ∷ b'b' ∷ 1 ∷ [], 3), tag_at-close_b s, refl)
    ]

marks-IsMarked : (s : Text) → marks_tag b'>' s ≡ true → IsMarked s
marks-IsMarked [] h = absurd (cc)
marks-IsMarked (c ∷ []) h = absurd (ground arith)
marks-IsMarked (c ∷ d ∷ []) h = elim (Bool-cases (c == b'/')) [
  | inl e ↦ absurd (cc (rw e at h))
  | inr e ↦ open-IsMarked c d [] (rw e at h)
]
marks-IsMarked (c ∷ d ∷ x ∷ s) h = elim (Bool-cases (c == b'/')) [
  | inl e ↦
      let slash : c ≡ b'/' = (==_iff c b'/').0 e in
      subst (λ (y : ℕ). IsMarked (y ∷ d ∷ x ∷ s)) {x = b'/'} (sym slash)
        (close-IsMarked d x s (rw e at h))
  | inr e ↦ open-IsMarked c d (x ∷ s) (rw e at h)
]

kept-unpark : (c : ℕ) → is_kept_character c ≡ true → unpark c ≡ c
unfolding is_control
kept-unpark c h = ground arith

strip_tags-fixed :
    (skip : ℕ) (s : Text)
    → only_tags b'<' b'>' s ≡ true
    → all is_kept_character s ≡ true
    → restored (strip_tags skip s) ≡ pass skip s
unfolding strip_tags only_tags drop_brackets
strip_tags-fixed zero [] tags kept = refl
strip_tags-fixed (suc skip) [] tags kept = refl
strip_tags-fixed (suc skip) (c ∷ s) tags kept =
    strip_tags-fixed skip s (ground arith) (ground arith)
strip_tags-fixed zero (c ∷ s) tags kept = elim (Bool-cases (c == b'<')) [
  | inl e ↦
      let marked : marks_tag b'>' s ≡ true = ground (arith, rw e at tags) in
      let (t, found, whole) = marks-IsMarked s marked in
      let bracket : c ≡ b'<' = (==_iff c b'<').0 e in
      rw (e, found, strip_tags)
        (restored-append t.0 (strip_tags t.1 s)
          ∙ ap (λ (r : Text). restored t.0 ++ r)
              (strip_tags-fixed t.1 s (ground arith) (ground arith))
          ∙ whole
          ∙ ap (λ (d : ℕ). d ∷ s) (sym bracket))
  | inr e ↦
      let same : unpark c ≡ c = kept-unpark c (ground arith) in
      rw (e, strip_tags)
        (rw e (
          ap (λ (d : ℕ). d ∷ restored (strip_tags zero s)) same
          ∙ ap (λ (r : Text). c ∷ r) (strip_tags-fixed zero s (ground arith) (ground arith))))
]

keep_kept : (s : Text) → all is_kept_character s ≡ true → collapse_control_chars s ≡ s
unfolding collapse_control_chars
keep_kept [] h = refl
keep_kept (c ∷ s) h = ground (arith, keep_kept s)

-- Clean markup is left as it is.
pub clean_markup-fixed :
    (s : Text) → only_tags b'<' b'>' s ≡ true → all is_kept_character s ≡ true → clean_markup s ≡ s
unfolding clean_markup
clean_markup-fixed s tags kept =
    ap (λ (t : Text). restored (strip_tags zero t)) (keep_kept s kept)
    ∙ strip_tags-fixed zero s tags kept
