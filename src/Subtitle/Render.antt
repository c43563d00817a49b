-- ===== src/Subtitle/Render.antt =====
-- internal/subtitle/subtitle.go: RenderSRT, the form in which a track is stored, and RenderVTT.
pub mod Digits
pub mod Clock
pub mod Untimed
pub mod LinesRead
pub mod RoundTrip
use moan_subs.Prelude.{
  ℕ, zero, suc, ◌+◌, ◌*◌, ◌/◌, ◌%◌, Bool, true, false, List, [], ◌∷◌, ◌++◌, ltb, if◌then◌else◌,
}
use moan_subs.Prelude.Int.{ℤ, pos, negsuc}
use moan_subs.Prelude.Decimal.{print_decimal}
use moan_subs.Prelude.Text.{Text, codes}
use moan_subs.Prelude.Unicode.{trim_space}
use moan_subs.Subtitle.{Cue}
use moan_subs.Subtitle.Sanitize.{collapse_control_chars, drop_blank_lines, collapse_arrows}

-- The verbs %02d and %03d.
abbrev pub print_two : ℕ → Text
print_two n = if ltb n 10 then b'0' ∷ (b'0' + n) ∷ [] else print_decimal 20 n []

abbrev pub print_three : ℕ → Text
print_three n =
    if ltb n 10
    then b'0' ∷ b'0' ∷ (b'0' + n) ∷ []
    else if ltb n 100
    then b'0' ∷ print_decimal 20 n []
    else print_decimal 20 n []

-- formatTimestamp.
abbrev pub whole_milliseconds : ℤ → ℕ
whole_milliseconds (pos n) = n / 1000000
whole_milliseconds (negsuc n) = 0

unfoldable pub format_timestamp : ℤ → ℕ → Text
format_timestamp d sep =
    let total = whole_milliseconds d in
    print_two (total / 3600000)
    ++ b':'
      ∷ (print_two (total % 3600000 / 60000)
          ++ b':' ∷ (print_two (total % 60000 / 1000) ++ sep ∷ print_three (total % 1000)))

abbrev pub timing_line : ℕ → Cue → Text
timing_line sep c = format_timestamp c.start sep ++ (codes " --> " ++ format_timestamp c.end sep)

-- The cues from a number on, and RenderSRT.
unfoldable pub render_from : ℕ → ℕ → List Cue → Text
render_from sep i [] = []
render_from sep i (c ∷ cues) =
    print_decimal 20 i []
    ++ b'\n'
      ∷ (timing_line sep c ++ b'\n' ∷ (c.text ++ b'\n' ∷ b'\n' ∷ render_from sep (suc i) cues))

unfoldable pub render_srt : List Cue → Text
render_srt cues = render_from b',' 1 cues

-- sanitizeNote, for a note that is a text, and RenderVTT.
unfoldable pub sanitize_note : Text → Text
sanitize_note s = collapse_arrows zero (drop_blank_lines (trim_space (collapse_control_chars s)))

abbrev pub note_block : Text → Text
note_block [] = []
note_block (c ∷ s) = codes "NOTE\n" ++ (c ∷ s) ++ codes "\n\n"

unfoldable pub render_vtt : List Cue → Text → Text
render_vtt cues remark =
    codes "WEBVTT\n\n" ++ (note_block (sanitize_note remark) ++ render_from b'.' 1 cues)
