-- ===== src/Subtitle/Parse.antt =====
-- internal/subtitle/subtitle.go: Parse. utf8.Valid with the conversion to a string is a parameter.
pub mod Stored
use moan_subs.Prelude.{
  ℕ, zero, suc, Bool, true, false, not, ◌&&◌, ◌||◌, List, [], ◌∷◌, ◌++◌, Option, none, some, leb,
  ltb, ◌==◌, ◌*◌, if◌then◌else◌, length, map,
}
use moan_subs.Prelude.Int.{ℤ, pos}
use moan_subs.Prelude.Result.{Result, ok, err, guard, ◌>>=◌, ◌>>◌}
use moan_subs.Prelude.Text.{Text, text_eq}
use moan_subs.Prelude.Unicode.{trim_space}
use moan_subs.Subtitle.{Cue}
use moan_subs.Subtitle.Sanitize.{split_lines, join_lines, is_blank, sanitize_text}
use moan_subs.Subtitle.Timing.{cue_times}

pub data ParseError : Type 0 where
  too_large invalid_utf8 too_many_cues no_cues : ParseError

abbrev pub max_bytes : ℕ
max_bytes = 2 * 1024 * 1024

abbrev pub max_cues : ℕ
max_cues = 10000

-- ReplaceAll of "\r\n" by "\n", where the Boolean says that a carriage return stands just before.
unfoldable pub join_crlf : Bool → Text → Text
join_crlf false [] = []
join_crlf true [] = b'\r' ∷ []
join_crlf false (c ∷ s) =
    let fresh = join_crlf false s in
    let pending = join_crlf true s in if c == b'\r' then pending else c ∷ fresh
join_crlf true (c ∷ s) =
    let fresh = join_crlf false s in
    let pending = join_crlf true s in
    if c == b'\n' then c ∷ fresh else if c == b'\r' then b'\r' ∷ pending else b'\r' ∷ c ∷ fresh

abbrev pub newline_for_cr : ℕ → ℕ
newline_for_cr c = if c == b'\r' then b'\n' else c

unfoldable pub unix_lines : Text → List Text
unix_lines s = split_lines (map newline_for_cr (join_crlf false s))

-- A cue whose times are read, with the lines of its body so far.
pub record OpenCue : Type 0 where
  pub start : ℕ
  pub end : ℕ
  pub body : List Text

abbrev pub keep_cue : OpenCue → Text → List Cue
keep_cue o [] = []
keep_cue o (c ∷ s) = record { start = pos o.start; end = pos o.end; text = c ∷ s } ∷ []

-- The end of a cue: nothing where its text is empty, before or after sanitizing.
unfoldable pub finish_cue : OpenCue → List Cue
finish_cue o = elim (trim_space (join_lines o.body)) [
  | [] ↦ []
  | c ∷ s ↦ keep_cue o (sanitize_text (c ∷ s))
]

abbrev pub open_cue : ℕ × ℕ → OpenCue
open_cue t = record { start = t.0; end = t.1; body = [] }

abbrev pub add_line : Text → OpenCue → OpenCue
add_line l o = record o { body = o.body ++ l ∷ [] }

-- Both loops of Parse in one pass over the lines: a blank line and a timing line end a body.
unfoldable pub read_cues : Option OpenCue → List Text → List Cue
read_cues none [] = []
read_cues (some o) [] = finish_cue o
read_cues none (l ∷ lines) = elim (cue_times l) [
  | none ↦ read_cues none lines
  | some t ↦ read_cues (some (open_cue t)) lines
]
read_cues (some o) (l ∷ lines) = elim (cue_times l) [
  | none ↦ elim (is_blank l) [
    | true ↦ finish_cue o ++ read_cues none lines
    | false ↦ read_cues (some (add_line l o)) lines
  ]
  | some t ↦ finish_cue o ++ read_cues (some (open_cue t)) lines
]

unfoldable pub parse_text : Text → Result ParseError (List Cue)
parse_text s = do
  let cues = read_cues none (unix_lines s)
  guard (leb (length cues) max_cues) too_many_cues
  guard (leb 1 (length cues)) no_cues
  ok cues

abbrev pub or_invalid : Option Text → Result ParseError Text
or_invalid none = err invalid_utf8
or_invalid (some s) = ok s

-- Parse.
unfoldable pub parse : (List ℕ → Option Text) → List ℕ → Result ParseError (List Cue)
parse decode input = do
  guard (leb (length input) max_bytes) too_large
  s ← or_invalid (decode input)
  parse_text s
