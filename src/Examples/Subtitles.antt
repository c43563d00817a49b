-- ===== src/Examples/Subtitles.antt =====
-- The theorems on the text of cues at concrete inputs.
use moan_subs.Prelude.{◌≡◌, ◌↔◌, refl, ap, List, ◌∷◌, [], none, some, All, length, arith}
use moan_subs.Prelude.Int.{pos}
use moan_subs.Prelude.Result.{ok}
use moan_subs.Subtitle.{Cue}
use moan_subs.Subtitle.Timing.{
  take_digits, some_digits, sixty, seconds, time_at, times_at, cue_times,
}
use moan_subs.Subtitle.Parse.{read_cues, unix_lines, join_crlf, finish_cue, parse, parse_text}
use moan_subs.Subtitle.Render.{render_srt}
use moan_subs.Subtitle.Render.RoundTrip.{IsCanonical, parse_text-render_srt}
use moan_subs.Subtitle.Parse.Stored.{IsStorable, parse-Storable}
use moan_subs.Prelude.Text.{Text, codes}
use moan_subs.Subtitle.Sanitize.{
  collapse_control_chars, name_rest, tag_name, until_bracket, replacement, tag_at, strip_tags,
  drop_brackets, collapse_arrows, split_lines, join_lines, drop_blank_lines, clean_markup,
  sanitize_text,
}
use moan_subs.Subtitle.Sanitize.Safe.{IsSafe, sanitize_text-IsSafe, sanitize_text_idem}

abbrev hostile : Text
hostile = codes "<<script>script>a<I x='1'>b</i >c --->d"

-- The run of a hostile text.
hostile_run : sanitize_text hostile ≡ codes "script>a<i>b</i>c ->d"
unfolding collapse_control_chars name_rest tag_name until_bracket replacement tag_at strip_tags
    drop_brackets collapse_arrows split_lines join_lines drop_blank_lines clean_markup sanitize_text
    moan_subs.Prelude.Unicode.trim_space moan_subs.Prelude.Unicode.trim_left
    moan_subs.Prelude.Unicode.trim_right moan_subs.Prelude.Unicode.is_space
    moan_subs.Prelude.Unicode.is_control
hostile_run = refl

sanitize_text-IsSafe_example : IsSafe (sanitize_text hostile)
sanitize_text-IsSafe_example = sanitize_text-IsSafe hostile

sanitize_text_idem_example :
    (sanitize_text (sanitize_text hostile) ≡ sanitize_text hostile)
    × (IsSafe hostile ↔ (sanitize_text hostile ≡ hostile))
sanitize_text_idem_example = sanitize_text_idem hostile

abbrev upload : Text
upload = codes "1\n00:00:01,000 --> 00:00:02,500\n<i>hi</i>\n"

abbrev uploaded : Cue
uploaded = record { start = pos 1000000000; end = pos 2500000000; text = codes "<i>hi</i>" }

upload_read : read_cues none (unix_lines upload) ≡ uploaded ∷ []
unfolding read_cues unix_lines join_crlf finish_cue cue_times times_at time_at take_digits
    some_digits sixty seconds collapse_control_chars name_rest tag_name until_bracket replacement
    tag_at strip_tags drop_brackets collapse_arrows split_lines join_lines drop_blank_lines
    clean_markup sanitize_text moan_subs.Prelude.Unicode.trim_space
    moan_subs.Prelude.Unicode.trim_left moan_subs.Prelude.Unicode.trim_right
    moan_subs.Prelude.Unicode.is_space moan_subs.Prelude.Unicode.is_control
upload_read = refl

one_cue : length (read_cues none (unix_lines upload)) ≡ 1
one_cue = ap (λ (cues : List Cue). length cues) upload_read

parse-Storable_example :
    (parse (λ bytes. some bytes) upload ≡ ok (read_cues none (unix_lines upload)))
    × All IsStorable (read_cues none (unix_lines upload))
parse-Storable_example =
    parse-Storable (λ bytes. some bytes) upload upload (omega arith) refl (omega (arith, one_cue))
      (omega (arith, one_cue))

-- The text of the cue is one that sanitizing leaves alone.
uploaded_same : sanitize_text uploaded.text ≡ uploaded.text
unfolding collapse_control_chars name_rest tag_name until_bracket replacement tag_at strip_tags
    drop_brackets collapse_arrows split_lines join_lines drop_blank_lines clean_markup sanitize_text
    moan_subs.Prelude.Unicode.trim_space moan_subs.Prelude.Unicode.trim_left
    moan_subs.Prelude.Unicode.trim_right moan_subs.Prelude.Unicode.is_space
    moan_subs.Prelude.Unicode.is_control
uploaded_same = refl

uploaded-IsSafe : IsSafe uploaded.text
uploaded-IsSafe =
    let (_, same) = sanitize_text_idem uploaded.text in let (_, back) = same in back uploaded_same

uploaded-IsCanonical : All IsCanonical (uploaded ∷ [])
uploaded-IsCanonical = (
  (
    1000000000,
    2500000000,
    refl,
    refl,
    (refl, omega arith),
    (refl, omega arith),
    uploaded-IsSafe,
    λ e. cc,
  ),
  tt,
)

parse_text-render_srt_example : parse_text (render_srt (uploaded ∷ [])) ≡ ok (uploaded ∷ [])
parse_text-render_srt_example =
    parse_text-render_srt (uploaded ∷ []) uploaded-IsCanonical (omega arith) (omega arith)
