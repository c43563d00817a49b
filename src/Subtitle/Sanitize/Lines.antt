-- ===== src/Subtitle/Sanitize/Lines.antt =====
-- internal/subtitle/subtitle.go: the lines of a text, and those that sanitizeText drops.
use moan_subs.Prelude.{
  ℕ, zero, suc, ◌≡◌, refl, sym, ap, ◌∙◌, Bool, true, not, ◌&&◌, List, [], ◌∷◌, ◌++◌, arith, ◌==◌,
  keep, Bool-cases, inl, inr, ==_iff, all,
}
use moan_subs.Prelude.Text.{Text}
use moan_subs.Subtitle.Sanitize.{first_line, split_lines, join_lines, is_blank, drop_blank_lines}
use moan_subs.Subtitle.Sanitize.Markup.{marks_tag, only_tags}
use moan_subs.Subtitle.Sanitize.Arrows.{arrow_free}

-- A test of texts that sees a text line by line.
abbrev pub LineWise : (Text → Bool) → Type 0
LineWise k = (k [] ≡ true) × ((l m : Text) → k (l ++ b'\n' ∷ m) ≡ (k l && k m))

join-first_line :
    (c : ℕ) (lines : List Text) → join_lines (first_line c lines) ≡ c ∷ join_lines lines
unfolding join_lines
join-first_line c [] = refl
join-first_line c (l ∷ []) = refl
join-first_line c (l ∷ m ∷ lines) = refl

-- A text has a first line.
pub split_lines-cons : (s : Text) → (l : Text) × (lines : List Text) × (split_lines s ≡ l ∷ lines)
unfolding split_lines
split_lines-cons [] = ([], [], refl)
split_lines-cons (c ∷ s) =
    let (l, lines, e) = split_lines-cons s in
    elim (Bool-cases (c == b'\n')) [
      | inl d ↦ ([], split_lines s, rw d)
      | inr d ↦ (c ∷ l, lines, rw (d, e))
    ]

join-newline : (s : Text) → join_lines ([] ∷ split_lines s) ≡ b'\n' ∷ join_lines (split_lines s)
unfolding join_lines
join-newline s = let (l, lines, e) = split_lines-cons s in rw e

pub join-split_lines : (s : Text) → join_lines (split_lines s) ≡ s
unfolding split_lines join_lines
join-split_lines [] = refl
join-split_lines (c ∷ s) = elim (Bool-cases (c == b'\n')) [
  | inl e ↦ rw e (
      join-newline s
      ∙ ap (λ (t : Text). b'\n' ∷ t) (join-split_lines s)
      ∙ ap (λ (d : ℕ). d ∷ s) (sym ((==_iff c b'\n').0 e)))
  | inr e ↦ rw e (join-first_line c (split_lines s) ∙ ap (λ (t : Text). c ∷ t) (join-split_lines s))
]

pub joined-all :
    (k : Text → Bool) → LineWise k → (lines : List Text) → k (join_lines lines) ≡ all k lines
unfolding join_lines
joined-all k (empty, both) [] = empty
joined-all k (empty, both) (l ∷ []) = ground arith
joined-all k (empty, both) (l ∷ m ∷ lines) =
    both l (join_lines (m ∷ lines)) ∙ ground (arith, joined-all k (empty, both) (m ∷ lines))

all-keep :
    (k p : Text → Bool) (lines : List Text) → all k lines ≡ true → all k (keep p lines) ≡ true
all-keep k p [] h = refl
all-keep k p (l ∷ lines) h = ground (arith, all-keep k p lines)

-- What holds line by line of a text holds when its blank lines are dropped.
pub drop_blank_lines-keeps :
    (k : Text → Bool) → LineWise k → (s : Text) → k s ≡ true → k (drop_blank_lines s) ≡ true
unfolding drop_blank_lines
drop_blank_lines-keeps k linewise s h =
    let p : Text → Bool = λ l. not (is_blank l) in
    joined-all k linewise (keep p (split_lines s))
    ∙ all-keep k p (split_lines s)
        (sym (joined-all k linewise (split_lines s)) ∙ ap k (join-split_lines s) ∙ h)

marks-line : (l m : Text) → marks_tag b'>' (l ++ b'\n' ∷ m) ≡ marks_tag b'>' l
marks-line [] [] = refl
marks-line [] (d ∷ m) = refl
marks-line (c ∷ []) m = ground arith
marks-line (c ∷ d ∷ []) m = ground arith
marks-line (c ∷ d ∷ e ∷ l) m = ground arith

pub tags-LineWise : LineWise (only_tags b'<' b'>')
unfolding only_tags
tags-LineWise = (refl, split)
  where
    split :
        (l m : Text)
        → only_tags b'<' b'>' (l ++ b'\n' ∷ m) ≡ (only_tags b'<' b'>' l && only_tags b'<' b'>' m)
    split [] m = refl
    split (c ∷ l) m = ground (arith, split l m, marks-line l m)

arrows-line :
    (n : ℕ) (l m : Text) → arrow_free n (l ++ b'\n' ∷ m) ≡ (arrow_free n l && arrow_free zero m)
unfolding arrow_free
arrows-line n [] m = refl
arrows-line n (c ∷ l) m = ground (arith, arrows-line (suc n) l m, arrows-line zero l m)

pub arrows-LineWise : LineWise (arrow_free zero)
unfolding arrow_free
arrows-LineWise = (refl, arrows-line zero)

pub all-LineWise : (p : ℕ → Bool) → p b'\n' ≡ true → LineWise (all p)
all-LineWise p h = (refl, split)
  where
    split : (l m : Text) → all p (l ++ b'\n' ∷ m) ≡ (all p l && all p m)
    split [] m = rw h
    split (c ∷ l) m = ground (arith, split l m)
