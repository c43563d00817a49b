-- ===== src/Subtitle/Render/RoundTrip.antt =====
-- internal/subtitle/subtitle.go: what RenderSRT writes, Parse reads back.
use moan_subs.Prelude.{
  ℕ, zero, suc, ◌≤◌, ◌≡◌, ◌≢◌, refl, sym, ap, ◌∙◌, ◌⊎◌, true, false, List, [], ◌∷◌, ◌++◌, none,
  some, arith, leb, inl, inr, length, all, All,
}
use moan_subs.Prelude.Int.{ℤ, pos}
use moan_subs.Prelude.Result.{ok}
use moan_subs.Prelude.Decimal.{print_decimal}
use moan_subs.Prelude.Text.{Text}
use moan_subs.Prelude.Unicode.{is_ascii_digit}
use moan_subs.Subtitle.{Cue}
use moan_subs.Subtitle.Sanitize.{is_kept_character, split_lines}
use moan_subs.Subtitle.Sanitize.Lines.{join-split_lines}
use moan_subs.Subtitle.Sanitize.Shown.{shown, split_lines-append}
use moan_subs.Subtitle.Sanitize.Characters.{all-append}
use moan_subs.Subtitle.Sanitize.Safe.{IsSafe}
use moan_subs.Subtitle.Timing.{cue_times}
use moan_subs.Subtitle.Parse.{OpenCue, open_cue, read_cues, unix_lines, parse_text, max_cues}
use moan_subs.Subtitle.Render.{timing_line, render_from, render_srt}
use moan_subs.Subtitle.Render.Clock.{IsClock, cue_times-timing_line}
use moan_subs.Subtitle.Render.Untimed.{cue_times-none}
use moan_subs.Subtitle.Render.LinesRead.{
  read_body, split_lines-text, unix_lines-plain, text-body, finished, is_line_character,
  print_decimal-all, digits_free, line-NoNewline, line-kept, digits-line, timing-line,
}

-- A cue of times of whole milliseconds below a hundred hours, and a text that is safe, not empty.
abbrev pub IsCanonical : Cue → Type 0
IsCanonical c =
    (a : ℕ) × (b : ℕ) × (c.start ≡ pos a)
    × (c.end ≡ pos b)
    × IsClock a
    × IsClock b
    × IsSafe c.text
    × (c.text ≢ [])

text-shown : (s : Text) → (s ≡ []) ⊎ (shown false s ≡ true) → s ≢ [] → shown false s ≡ true
text-shown s (inl e) ne = absurd (ne e)
text-shown s (inr h) ne = h

skip_untimed :
    (l : Text) (lines : List Text)
    → cue_times l ≡ none
    → read_cues none (l ∷ lines) ≡ read_cues none lines
unfolding read_cues
skip_untimed l lines e = rw (e, read_cues) refl

open_timed :
    (l : Text) (lines : List Text) (t : ℕ × ℕ)
    → cue_times l ≡ some t
    → read_cues none (l ∷ lines) ≡ read_cues (some (open_cue t)) lines
unfolding read_cues
open_timed l lines t e = rw (e, read_cues) refl

blank_first : (s : Text) → split_lines (b'\n' ∷ s) ≡ [] ∷ split_lines s
unfolding split_lines
blank_first s = refl

read_one :
    (i a b : ℕ) (text rest : Text)
    → IsClock a
    → IsClock b
    → IsSafe text
    → text ≢ []
    → let c : Cue = record { start = pos a; end = pos b; text = text } in
      read_cues none (
        split_lines (
          print_decimal 20 i []
          ++ b'\n' ∷ (timing_line b',' c ++ b'\n' ∷ (text ++ b'\n' ∷ b'\n' ∷ rest))))
      ≡ c ∷ read_cues none (split_lines rest)
read_one i a b text rest ha hb safe ne =
    let c : Cue = record { start = pos a; end = pos b; text = text } in
    let (tags, free, kept, lines, trimmed) = safe in
    let index = print_decimal 20 i [] in
    let timing = timing_line b',' c in
    let index_digits : all is_ascii_digit index ≡ true = print_decimal-all 20 i [] refl in
    let o : OpenCue = open_cue (a, b) in
    let body = split_lines text in
    let after = body ++ [] ∷ split_lines rest in
    let split : split_lines (index ++ b'\n' ∷ (timing ++ b'\n' ∷ (text ++ b'\n' ∷ b'\n' ∷ rest)))
        ≡ index ∷ timing ∷ (body ++ [] ∷ split_lines rest) =
      split_lines-append index _ (line-NoNewline index (digits-line index index_digits))
      ∙ ap (λ (l : List Text). index ∷ l)
          (split_lines-append timing _ (line-NoNewline timing (timing-line a b text ha hb))
            ∙ ap (λ (l : List Text). timing ∷ l)
                (split_lines-text text (b'\n' ∷ rest)
                  ∙ ap (λ (l : List Text). body ++ l) (blank_first rest))) in
    ap (read_cues none) split
    ∙ skip_untimed index (timing ∷ after)
        (cue_times-none index (digits_free zero index index_digits))
    ∙ open_timed timing after (a, b) (cue_times-timing_line a b text ha hb)
    ∙ read_body o body (split_lines rest) (text-body text free (text-shown text lines ne))
    ∙ ap (λ (cs : List Cue). cs ++ read_cues none (split_lines rest))
        (finished a b text body (join-split_lines text) safe ne)

no_cue : read_cues none (split_lines []) ≡ []
unfolding read_cues split_lines cue_times
no_cue = refl

canonical_cue :
    (c : Cue) (a b : ℕ)
    → c.start ≡ pos a
    → c.end ≡ pos b
    → record { start = pos a; end = pos b; text = c.text } ≡ c
canonical_cue c a b es ee =
    ap (λ (x : ℤ). record c { start = x; end = pos b }) (sym es)
    ∙ ap (λ (x : ℤ). record c { end = x }) (sym ee)

-- Rendered cues are read from the lines of their text.
read-render_from :
    (i : ℕ) (cues : List Cue)
    → All IsCanonical cues
    → read_cues none (split_lines (render_from b',' i cues)) ≡ cues
unfolding render_from
read-render_from i [] _ = no_cue
read-render_from i (c ∷ cues) ((a, b, es, ee, ha, hb, safe, ne), hs) =
    let same = canonical_cue c a b es ee in
    let rest = render_from b',' (suc i) cues in
    ap
      (λ (x : Cue). read_cues none (
        split_lines (
          print_decimal 20 i []
          ++ b'\n' ∷ (timing_line b',' x ++ b'\n' ∷ (c.text ++ b'\n' ∷ b'\n' ∷ rest)))))
      (sym same)
    ∙ read_one i a b c.text rest ha hb safe ne
    ∙ ap (λ (x : Cue). x ∷ read_cues none (split_lines rest)) same
    ∙ ap (λ (cs : List Cue). c ∷ cs) (read-render_from (suc i) cues hs)

kept_newline : is_kept_character b'\n' ≡ true
kept_newline = refl

line-then :
    (s t : Text)
    → all is_kept_character s ≡ true
    → all is_kept_character t ≡ true
    → all is_kept_character (s ++ b'\n' ∷ t) ≡ true
line-then s t hs ht = all-append is_kept_character s (b'\n' ∷ t) ∙ ground (arith, kept_newline)

render_from-kept :
    (i : ℕ) (cues : List Cue)
    → All IsCanonical cues
    → all is_kept_character (render_from b',' i cues) ≡ true
unfolding render_from
render_from-kept i [] _ = refl
render_from-kept i (c ∷ cues) ((a, b, es, ee, ha, hb, safe, ne), hs) =
    let (_, _, kept, _, _) = safe in
    let index = print_decimal 20 i [] in
    let timed : all is_line_character (timing_line b',' c) ≡ true =
      ap (λ (x : Cue). all is_line_character (timing_line b',' x)) (sym (canonical_cue c a b es ee))
      ∙ timing-line a b c.text ha hb in
    line-then index _ (line-kept index (digits-line index (print_decimal-all 20 i [] refl))) (
      line-then (timing_line b',' c) _ (line-kept (timing_line b',' c) timed) (
        line-then c.text (b'\n' ∷ render_from b',' (suc i) cues) kept
          (line-then [] (render_from b',' (suc i) cues) refl (render_from-kept (suc i) cues hs))))

-- From one to 10,000 cues, each with times of whole milliseconds below a hundred hours and a safe text that
-- is not empty, are read back from their rendering exactly as they were.
pub parse_text-render_srt :
    (cues : List Cue)
    → All IsCanonical cues
    → 1 ≤ length cues
    → length cues ≤ max_cues
    → parse_text (render_srt cues) ≡ ok cues
unfolding parse_text render_srt
parse_text-render_srt cues canonical some_cue few =
    let read : read_cues none (unix_lines (render_from b',' 1 cues)) ≡ cues =
      ap (read_cues none)
        (unix_lines-plain (render_from b',' 1 cues) (render_from-kept 1 cues canonical))
      ∙ read-render_from 1 cues canonical in
    let under : leb (length cues) max_cues ≡ true = ground arith in
    let any_cue : leb 1 (length cues) ≡ true = ground arith in rw (read, under, any_cue) refl
