-- ===== src/Subtitle/Render/LinesRead.antt =====
-- internal/subtitle/subtitle.go: the lines of a rendered text, and how Parse reads the lines of a cue.
use moan_subs.Prelude.{
  ℕ, zero, suc, ◌+◌, ◌/◌, ◌%◌, ◌<◌, ◌≡◌, ◌≢◌, refl, sym, ap, ◌∙◌, Bool, true, false, ◌||◌, List, [],
  ◌∷◌, ◌++◌, none, some, arith, ltb, ◌==◌, Bool-cases, inl, inr, map, all, All, append_assoc,
  append-nil,
}
use moan_subs.Prelude.Int.{pos}
use moan_subs.Prelude.Decimal.{print_decimal}
use moan_subs.Prelude.Text.{Text, codes}
use moan_subs.Prelude.Unicode.{trim_space, is_control, is_ascii_digit}
use moan_subs.Subtitle.Sanitize.{is_kept_character, split_lines, join_lines, is_blank}
use moan_subs.Subtitle.Sanitize.Arrows.{arrow_free}
use moan_subs.Subtitle.Sanitize.Lines.{
  join-split_lines, split_lines-cons, joined-all, arrows-LineWise,
}
use moan_subs.Subtitle.Sanitize.Shown.{shown, is_shown, shown-all, blank_empty, NoNewline}
use moan_subs.Subtitle.Sanitize.Characters.{all-append, all-weaken}
use moan_subs.Subtitle.Sanitize.Safe.{IsSafe, sanitize_text-fixed}
use moan_subs.Subtitle.Timing.{cue_times, two_digits, three_digits}
use moan_subs.Subtitle.Parse.{
  OpenCue, finish_cue, add_line, read_cues, unix_lines, join_crlf, newline_for_cr,
}
use moan_subs.Subtitle.Render.{format_timestamp, timing_line}
use moan_subs.Subtitle.Render.Clock.{IsClock, format-digits}
use moan_subs.Subtitle.Render.Digits.{digit_char}
use moan_subs.Subtitle.Render.Untimed.{cue_times-none}

-- The lines of a body: none blank and none a timing line.
abbrev IsBodyLine : Text → Type 0
IsBodyLine l = (cue_times l ≡ none) × (is_blank l ≡ false)

abbrev add_lines : List Text → OpenCue → OpenCue
add_lines lines o = record o { body = o.body ++ lines }

nothing_timed : cue_times [] ≡ none
unfolding cue_times
nothing_timed = refl

pub read_body :
    (o : OpenCue) (lines rest : List Text)
    → All IsBodyLine lines
    → read_cues (some o) (lines ++ [] ∷ rest)
      ≡ finish_cue (add_lines lines o) ++ read_cues none rest
unfolding read_cues
read_body o [] rest _ =
    rw (nothing_timed, blank_empty, read_cues)
      (ap (λ (b : List Text). finish_cue (record o { body = b }) ++ read_cues none rest)
        (sym (append-nil o.body)))
read_body o (l ∷ lines) rest ((untimed, shows), hs) =
    rw (untimed, shows, read_cues)
      (read_body (add_line l o) lines rest hs
        ∙ ap (λ (b : List Text). finish_cue (record o { body = b }) ++ read_cues none rest)
            (append_assoc o.body (l ∷ []) lines))

pub split_lines-text : (s t : Text) → split_lines (s ++ b'\n' ∷ t) ≡ split_lines s ++ split_lines t
unfolding split_lines
split_lines-text [] t = refl
split_lines-text (c ∷ s) t = elim (Bool-cases (c == b'\n')) [
  | inl e ↦ rw (e, split_lines-text s t) refl
  | inr e ↦ let (l, lines, d) = split_lines-cons s in rw (e, split_lines-text s t) (rw d refl)
]

join_crlf-plain : (s : Text) → all is_kept_character s ≡ true → join_crlf false s ≡ s
unfolding join_crlf is_control
join_crlf-plain [] h = refl
join_crlf-plain (c ∷ s) h = ground (arith, join_crlf-plain s)

newlines-plain : (s : Text) → all is_kept_character s ≡ true → map newline_for_cr s ≡ s
unfolding is_control
newlines-plain [] h = refl
newlines-plain (c ∷ s) h = ground (arith, newlines-plain s)

pub unix_lines-plain : (s : Text) → all is_kept_character s ≡ true → unix_lines s ≡ split_lines s
unfolding unix_lines
unix_lines-plain s h =
    ap (λ (t : Text). split_lines (map newline_for_cr t)) (join_crlf-plain s h)
    ∙ ap split_lines (newlines-plain s h)

body-lines :
    (lines : List Text)
    → all (arrow_free zero) lines ≡ true
    → all is_shown lines ≡ true
    → All IsBodyLine lines
body-lines [] _ _ = tt
body-lines (l ∷ lines) free shows = (
  (cue_times-none l (ground arith), ground arith),
  body-lines lines (ground arith) (ground arith),
)

pub text-body :
    (s : Text) → arrow_free zero s ≡ true → shown false s ≡ true → All IsBodyLine (split_lines s)
text-body s free shows =
    body-lines (split_lines s)
      (sym (joined-all (arrow_free zero) arrows-LineWise (split_lines s))
        ∙ ap (arrow_free zero) (join-split_lines s)
        ∙ free)
      (shown-all s shows)

pub finished :
    (a b : ℕ) (s : Text) (lines : List Text)
    → join_lines lines ≡ s
    → IsSafe s
    → s ≢ []
    → finish_cue (record { start = a; end = b; body = lines })
      ≡ record { start = pos a; end = pos b; text = s } ∷ []
unfolding finish_cue
finished a b [] lines joined safe some_text = absurd (some_text refl)
finished a b (c ∷ s) lines joined safe some_text =
    let (_, _, _, _, trimmed) = safe in
    let raw : trim_space (join_lines lines) ≡ c ∷ s = ap trim_space joined ∙ trimmed in
    rw (raw, sanitize_text-fixed (c ∷ s) safe, finish_cue) refl

-- The digits of a number and the characters of a timing line.
abbrev pub is_line_character : ℕ → Bool
is_line_character c =
    is_ascii_digit c || c == b':' || c == b',' || c == b' ' || c == b'-' || c == b'>'

pub print_decimal-all :
    (n v : ℕ) (out : Text)
    → all is_ascii_digit out ≡ true
    → all is_ascii_digit (print_decimal n v out) ≡ true
unfolding print_decimal
print_decimal-all zero v out h = h
print_decimal-all (suc n) v out h = elim (Bool-cases (ltb v 10)) [
  | inl e ↦ rw e (ground (arith, digit_char v))
  | inr e ↦
      rw e
        (print_decimal-all n (v / 10) ((b'0' + v % 10) ∷ out) (ground (arith, digit_char (v % 10))))
]

pub digits_free : (n : ℕ) (s : Text) → all is_ascii_digit s ≡ true → arrow_free n s ≡ true
unfolding arrow_free
digits_free n [] h = refl
digits_free n (c ∷ s) h = ground (arith, digits_free zero s, digits_free (suc n) s)

pub line-NoNewline : (s : Text) → all is_line_character s ≡ true → NoNewline s
line-NoNewline [] h = tt
line-NoNewline (c ∷ s) h = (ground arith, line-NoNewline s (ground arith))

pub line-kept : (s : Text) → all is_line_character s ≡ true → all is_kept_character s ≡ true
unfolding is_control
line-kept s h = all-weaken is_line_character is_kept_character (λ c e. ground arith) s h

pub digits-line : (s : Text) → all is_ascii_digit s ≡ true → all is_line_character s ≡ true
digits-line s h = all-weaken is_ascii_digit is_line_character (λ c e. ground arith) s h

two-line :
    (n : ℕ) (s : Text)
    → n < 100
    → all is_line_character s ≡ true
    → all is_line_character (two_digits n ++ s) ≡ true
two-line n s below h = ground (arith, digit_char (n / 10), digit_char (n % 10))

three-line : (n : ℕ) → n < 1000 → all is_line_character (three_digits n) ≡ true
three-line n below =
    ground (arith, digit_char (n / 100), digit_char (n / 10 % 10), digit_char (n % 10))

format-line : (n : ℕ) → IsClock n → all is_line_character (format_timestamp (pos n) b',') ≡ true
format-line n (whole, below) =
    let t = n / 1000000 in
    let t6 = b',' ∷ three_digits (t % 1000) in
    let t4 = b':' ∷ (two_digits (t % 60000 / 1000) ++ t6) in
    let t2 = b':' ∷ (two_digits (t % 3600000 / 60000) ++ t4) in
    ap (all is_line_character) (format-digits n (whole, below))
    ∙ two-line (t / 3600000) t2 (omega arith) (
        two-line (t % 3600000 / 60000) t4 (omega arith)
          (two-line (t % 60000 / 1000) t6 (omega arith) (three-line (t % 1000) (omega arith))))

pub timing-line :
    (a b : ℕ) (s : Text)
    → IsClock a
    → IsClock b
    → all is_line_character (timing_line b',' (record { start = pos a; end = pos b; text = s }))
      ≡ true
timing-line a b s ha hb =
    all-append is_line_character (format_timestamp (pos a) b',')
      (codes " --> " ++ format_timestamp (pos b) b',')
    ∙ ground (arith, format-line a ha, format-line b hb)
