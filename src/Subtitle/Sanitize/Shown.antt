-- ===== src/Subtitle/Sanitize/Shown.antt =====
-- internal/subtitle/subtitle.go: a sanitized text has no blank line in it.
use moan_subs.Prelude.{
  ℕ, ◌≡◌, refl, sym, ap, ◌∙◌, ◌⊎◌, Bool, true, false, not, ◌&&◌, ◌||◌, List, [], ◌∷◌, ◌++◌, arith,
  ◌==◌, if◌then◌else◌, keep, All, All-keep_some, Bool-cases, inl, inr, all,
}
use moan_subs.Prelude.Text.{Text}
use moan_subs.Prelude.Unicode.{is_space, trim_left, trim_right, trim_space}
use moan_subs.Subtitle.Sanitize.{first_line, split_lines, join_lines, is_blank, drop_blank_lines}
use moan_subs.Subtitle.Sanitize.Lines.{split_lines-cons, join-split_lines}
use moan_subs.Subtitle.Sanitize.Trimmed.{right-cases}

-- Every line has a character that is not white space, where `seen` says so of the line's beginning.
unfoldable pub shown : Bool → Text → Bool
shown seen [] = seen
shown seen (c ∷ s) =
    let next = shown false s in
    let same = shown (seen || not (is_space c)) s in if c == b'\n' then seen && next else same

abbrev pub is_shown : Text → Bool
is_shown l = not (is_blank l)

blank-cons : (c : ℕ) (l : Text) → is_blank (c ∷ l) ≡ (is_space c && is_blank l)
unfolding trim_space trim_left trim_right
blank-cons c l = elim (Bool-cases (is_space c)) [
  | inl e ↦ rw e refl
  | inr e ↦ elim (right-cases c l) [ inl f ↦ rw e (rw f refl) | inr (space, _, _) ↦ absurd (cc) ]
]

pub blank_empty : is_blank [] ≡ true
unfolding trim_space trim_left trim_right
blank_empty = refl

-- The same of a text's lines.
abbrev lines_shown : Bool → List Text → Bool
lines_shown seen [] = seen
lines_shown seen (l ∷ lines) = (seen || is_shown l) && all is_shown lines

lines_shown-all : (s : Text) → lines_shown false (split_lines s) ≡ all is_shown (split_lines s)
lines_shown-all s = let (l, lines, e) = split_lines-cons s in rw e (ground arith)

shown-first_line :
    (seen : Bool) (c : ℕ) (s : Text)
    → lines_shown seen (first_line c (split_lines s))
      ≡ lines_shown (seen || not (is_space c)) (split_lines s)
shown-first_line seen c s =
    let (l, lines, e) = split_lines-cons s in let blank = blank-cons c l in rw e (ground arith)

shown-lines : (seen : Bool) (s : Text) → shown seen s ≡ lines_shown seen (split_lines s)
unfolding shown split_lines
shown-lines seen [] = ground (arith, blank_empty)
shown-lines seen (c ∷ s) = elim (Bool-cases (c == b'\n')) [
  | inl e ↦ rw e (ground (arith, blank_empty, shown-lines false s, lines_shown-all s))
  | inr e ↦ rw e (shown-lines (seen || not (is_space c)) s ∙ sym (shown-first_line seen c s))
]

keep-all : (p : Text → Bool) (lines : List Text) → all p lines ≡ true → keep p lines ≡ lines
keep-all p [] h = refl
keep-all p (l ∷ lines) h = ground (arith, keep-all p lines)

trim_empty : trim_right (trim_left []) ≡ []
unfolding trim_left trim_right
trim_empty = refl

pub shown-all : (s : Text) → shown false s ≡ true → all is_shown (split_lines s) ≡ true
shown-all s h = sym (lines_shown-all s) ∙ sym (shown-lines false s) ∙ h

-- A text without a blank line is left as it is.
pub drop_blank_lines-fixed : (s : Text) → shown false s ≡ true → drop_blank_lines s ≡ s
unfolding drop_blank_lines
drop_blank_lines-fixed s h =
    let all_shown : all is_shown (split_lines s) ≡ true =
      sym (lines_shown-all s) ∙ sym (shown-lines false s) ∙ h in
    ap join_lines (keep-all is_shown (split_lines s) all_shown) ∙ join-split_lines s

left-shown : (s : Text) → shown false s ≡ true → shown false (trim_left s) ≡ true
unfolding shown trim_left
left-shown [] h = absurd (cc)
left-shown (c ∷ s) h = elim (Bool-cases (is_space c)) [
  | inl e ↦ rw e (left-shown s (ground arith))
  | inr e ↦ rw e h
]

right-shown : (seen : Bool) (s : Text) → shown seen s ≡ true → shown seen (trim_right s) ≡ true
unfolding shown trim_right
right-shown seen [] h = h
right-shown seen (c ∷ s) h = elim (right-cases c s) [
  | inl e ↦ rw e (ground (arith, right-shown false s, right-shown (seen || not (is_space c)) s))
  | inr (space, empty, e) ↦ elim (Bool-cases (c == b'\n')) [
    | inl d ↦ rw e (ground (arith, rw d at h))
    | inr d ↦
        let rest : shown (seen || not (is_space c)) (trim_right s) ≡ true =
          right-shown (seen || not (is_space c)) s (rw d at h) in
        let seen_before : (seen || not (is_space c)) ≡ true =
          sym (ap (shown (seen || not (is_space c))) empty) ∙ rest in
        rw e (ground arith)
  ]
]

abbrev pub NoNewline : Text → Type 0
NoNewline = All (λ c. (c == b'\n') ≡ false)

first_line-NoNewline :
    (c : ℕ) (lines : List Text)
    → (c == b'\n') ≡ false
    → All NoNewline lines
    → All NoNewline (first_line c lines)
first_line-NoNewline c [] e _ = ((e, tt), tt)
first_line-NoNewline c (l ∷ lines) e (h, hs) = ((e, h), hs)

split_lines-NoNewline : (s : Text) → All NoNewline (split_lines s)
unfolding split_lines
split_lines-NoNewline [] = (tt, tt)
split_lines-NoNewline (c ∷ s) = elim (Bool-cases (c == b'\n')) [
  | inl e ↦ rw e (tt, split_lines-NoNewline s)
  | inr e ↦ rw e (first_line-NoNewline c (split_lines s) e (split_lines-NoNewline s))
]

pub split_lines-append :
    (l s : Text) → NoNewline l → split_lines (l ++ b'\n' ∷ s) ≡ l ∷ split_lines s
unfolding split_lines
split_lines-append [] s _ = refl
split_lines-append (c ∷ l) s (h, hs) = rw (h, split_lines-append l s hs)

split_lines-last : (l : Text) → NoNewline l → split_lines l ≡ l ∷ []
unfolding split_lines
split_lines-last [] _ = refl
split_lines-last (c ∷ l) (h, hs) = rw (h, split_lines-last l hs)

split-join_lines :
    (l : Text) (lines : List Text)
    → All NoNewline (l ∷ lines)
    → split_lines (join_lines (l ∷ lines)) ≡ l ∷ lines
unfolding join_lines
split-join_lines l [] (h, _) = split_lines-last l h
split-join_lines l (m ∷ lines) (h, hs) =
    split_lines-append l (join_lines (m ∷ lines)) h
    ∙ ap (λ (k : List Text). l ∷ k) (split-join_lines m lines hs)

all-kept : (p : Text → Bool) (lines : List Text) → all p (keep p lines) ≡ true
all-kept p [] = refl
all-kept p (l ∷ lines) = elim (Bool-cases (p l)) [
  | inl e ↦ rw (e, e) (all-kept p lines)
  | inr e ↦ rw e (all-kept p lines)
]

joined-shown :
    (lines : List Text)
    → All NoNewline lines
    → all is_shown lines ≡ true
    → (join_lines lines ≡ []) ⊎ (shown false (join_lines lines) ≡ true)
unfolding join_lines
joined-shown [] _ _ = inl refl
joined-shown (l ∷ lines) plain h = inr (
    shown-lines false (join_lines (l ∷ lines))
    ∙ ap (lines_shown false) (split-join_lines l lines plain)
    ∙ ground arith)

-- What is left when the blank lines are dropped and the ends are trimmed is empty or has no blank line.
pub trimmed-shown :
    (s : Text) → let out = trim_space (drop_blank_lines s) in (out ≡ []) ⊎ (shown false out ≡ true)
unfolding drop_blank_lines trim_space
trimmed-shown s =
    let lines = keep is_shown (split_lines s) in
    elim (joined-shown lines
      (All-keep_some NoNewline is_shown (split_lines s) (split_lines-NoNewline s))
      (all-kept is_shown (split_lines s))) [
        | inl e ↦ inl (ap (λ (t : Text). trim_right (trim_left t)) e ∙ trim_empty)
        | inr h ↦
            inr (right-shown false (trim_left (join_lines lines)) (left-shown (join_lines lines) h))
      ]
