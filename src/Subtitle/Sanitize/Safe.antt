-- ===== src/Subtitle/Sanitize/Safe.antt =====
-- internal/subtitle/subtitle.go: what holds of every sanitized text.
use moan_subs.Prelude.{
  ℕ, zero, suc, ◌≡◌, refl, sym, ap, subst, ◌↔◌, ◌∙◌, ◌⊎◌, Bool, true, false, List, [], ◌∷◌, ◌++◌,
  All, Bool-cases, inl, inr, all, append-nil,
}
use moan_subs.Prelude.Text.{Text}
use moan_subs.Prelude.Unicode.{trim_space, is_control}
use moan_subs.Subtitle.Sanitize.{
  is_kept_character, collapse_arrows, split_lines, join_lines, drop_blank_lines, clean_markup,
  sanitize_text,
}
use moan_subs.Subtitle.Sanitize.Markup.{only_tags, clean_markup-tags}
use moan_subs.Subtitle.Sanitize.Arrows.{
  arrow_free, collapse_arrows-free, collapse_arrows-fixed, collapse_arrows-tags,
  collapse_arrows-all,
}
use moan_subs.Subtitle.Sanitize.Lines.{
  drop_blank_lines-keeps, tags-LineWise, arrows-LineWise, all-LineWise,
}
use moan_subs.Subtitle.Sanitize.Trimmed.{trim_space-tags, trim_space-arrows, trim_space-all}
use moan_subs.Subtitle.Sanitize.Shown.{shown, drop_blank_lines-fixed, trimmed-shown}
use moan_subs.Subtitle.Sanitize.Characters.{clean_markup-kept, trim_space_idem}
use moan_subs.Subtitle.Sanitize.Fixed.{clean_markup-fixed}

-- Every opening bracket begins <i>, </i>, <b> or </b>; no two dashes stand before a closing bracket; there
-- is no control character but line feeds; the text is empty or every line has a character that is not white
-- space; and there is no white space at the ends.
abbrev pub IsSafe : Text → Type 0
IsSafe s =
    (only_tags b'<' b'>' s ≡ true)
    × (arrow_free zero s ≡ true)
    × (all is_kept_character s ≡ true)
    × ((s ≡ []) ⊎ (shown false s ≡ true))
    × (trim_space s ≡ s)

kept_dash : is_kept_character b'-' ≡ true
unfolding is_control
kept_dash = refl

-- Every sanitized text is safe, whatever was uploaded.
pub sanitize_text-IsSafe : (s : Text) → IsSafe (sanitize_text s)
unfolding sanitize_text
sanitize_text-IsSafe s =
    let clean = clean_markup s in
    let text = collapse_arrows zero clean in
    (
      trim_space-tags (drop_blank_lines text) (
          drop_blank_lines-keeps (only_tags b'<' b'>') tags-LineWise text
            (collapse_arrows-tags zero clean (clean_markup-tags s))),
      trim_space-arrows (drop_blank_lines text) (
          drop_blank_lines-keeps (arrow_free zero) arrows-LineWise text
            (collapse_arrows-free zero clean)),
      trim_space-all is_kept_character (drop_blank_lines text) (
          drop_blank_lines-keeps (all is_kept_character) (all-LineWise is_kept_character refl) text
            (collapse_arrows-all is_kept_character kept_dash zero clean (clean_markup-kept s))),
      trimmed-shown text,
      trim_space_idem (drop_blank_lines text),
    )

no_lines : drop_blank_lines [] ≡ []
unfolding drop_blank_lines split_lines join_lines trim_space moan_subs.Prelude.Unicode.trim_left
    moan_subs.Prelude.Unicode.trim_right
no_lines = refl

blank_lines-fixed : (s : Text) → (s ≡ []) ⊎ (shown false s ≡ true) → drop_blank_lines s ≡ s
blank_lines-fixed s (inl e) = ap drop_blank_lines e ∙ no_lines ∙ sym e
blank_lines-fixed s (inr h) = drop_blank_lines-fixed s h

-- A safe text is left as it is.
pub sanitize_text-fixed : (s : Text) → IsSafe s → sanitize_text s ≡ s
unfolding sanitize_text
sanitize_text-fixed s (tags, arrows, kept, lines, trimmed) =
    ap (λ (t : Text). trim_space (drop_blank_lines (collapse_arrows zero t)))
      (clean_markup-fixed s tags kept)
    ∙ ap (λ (t : Text). trim_space (drop_blank_lines t)) (collapse_arrows-fixed zero s arrows)
    ∙ ap trim_space (blank_lines-fixed s lines)
    ∙ trimmed

-- Sanitizing is idempotent: what it leaves alone is exactly the safe texts.
pub sanitize_text_idem :
    (s : Text)
    → (sanitize_text (sanitize_text s) ≡ sanitize_text s) × (IsSafe s ↔ (sanitize_text s ≡ s))
sanitize_text_idem s = (
  sanitize_text-fixed (sanitize_text s) (sanitize_text-IsSafe s),
  (sanitize_text-fixed s, λ fixed. subst IsSafe fixed (sanitize_text-IsSafe s)),
)
