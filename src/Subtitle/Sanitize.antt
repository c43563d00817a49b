-- ===== src/Subtitle/Sanitize.antt =====
-- internal/subtitle/subtitle.go: sanitizeText, step by step. The regular expressions are written out as
-- the scans that they stand for.
pub mod Markup
pub mod Arrows
pub mod Lines
pub mod Trimmed
pub mod Shown
pub mod Characters
pub mod Fixed
pub mod Safe
use moan_subs.Prelude.{
  ℕ, zero, suc, ◌+◌, ◌≤◌, Bool, true, false, not, ◌&&◌, ◌||◌, List, [], ◌∷◌, ◌++◌, Option, none,
  some, leb, ltb, ◌==◌, if◌then◌else◌, length, keep, map, replicate,
}
use moan_subs.Prelude.Text.{Text, codes, text_eq}
use moan_subs.Prelude.Unicode.{is_control, is_ascii_letter, is_ascii_digit, lower_ascii, trim_space}

-- collapseControlChars.
abbrev pub is_kept_character : ℕ → Bool
is_kept_character c = c == b'\n' || not (is_control c)

unfoldable pub collapse_control_chars : Text → Text
collapse_control_chars = keep is_kept_character

-- tagRe: `(?i)</?\s*([a-zA-Z][a-zA-Z0-9]*)\b[^>]*>`. Folding case, the letters have the long s and the
-- Kelvin sign among them; \b looks at ASCII alone.
abbrev pub is_name_letter : ℕ → Bool
is_name_letter c = is_ascii_letter c || c == 0x17F || c == 0x212A

abbrev pub is_name_character : ℕ → Bool
is_name_character c = is_name_letter c || is_ascii_digit c

abbrev pub is_word : ℕ → Bool
is_word c = is_ascii_letter c || is_ascii_digit c || c == b'_'

abbrev pub is_boundary : ℕ → ℕ → Bool
is_boundary c d = if is_word c then not (is_word d) else is_word d

-- The longest rest of a name behind one of its characters that ends at a boundary, in the text up to the
-- closing bracket.
abbrev pub extend_name : ℕ → Bool → Option Text → Option Text
extend_name c ends none = if ends then some [] else none
extend_name c ends (some name) = some (c ∷ name)

unfoldable pub name_rest : ℕ → Text → Option Text
name_rest last [] = if is_boundary last b'>' then some [] else none
name_rest last (c ∷ s) =
    let longer = name_rest c s in
    extend_name c (is_boundary last c) (if is_name_character c then longer else none)

abbrev pub is_tag_space : ℕ → Bool
is_tag_space c = c == b' ' || c == b'\t' || c == b'\n' || c == b'\r' || c == 12

abbrev pub skip_spaces : Text → Text
skip_spaces [] = []
skip_spaces (c ∷ s) = if is_tag_space c then skip_spaces s else c ∷ s

abbrev pub name_at : Text → Option Text
name_at [] = none
name_at (c ∷ s) =
    if is_name_letter c
    then elim (name_rest c s) [ none ↦ none | some name ↦ some (c ∷ name) ]
    else none

abbrev pub is_closing : Text → Bool
is_closing [] = false
is_closing (c ∷ s) = c == b'/'

abbrev pub skip_slash : Text → Text
skip_slash [] = []
skip_slash (c ∷ s) = if c == b'/' then s else c ∷ s

unfoldable pub tag_name : Text → Option Text
tag_name inside = name_at (skip_spaces (skip_slash inside))

-- The text before the closing bracket, if there is one.
abbrev pub cons_to : ℕ → Option Text → Option Text
cons_to c none = none
cons_to c (some s) = some (c ∷ s)

unfoldable pub until_bracket : Text → Option Text
until_bracket [] = none
until_bracket (c ∷ s) = let rest = until_bracket s in if c == b'>' then some [] else cons_to c rest

-- strings.ToLower on the characters of a name.
abbrev pub lower_name : ℕ → ℕ
lower_name c = if c == 0x212A then b'k' else lower_ascii c

-- What a tag is replaced by: sentinels around the name of an allowed one.
abbrev pub is_allowed : Text → Bool
is_allowed name = text_eq name (codes "i") || text_eq name (codes "b")

abbrev pub park : Bool → Text → Text
park closing name = 0 ∷ ((if closing then b'/' ∷ [] else []) ++ (name ++ 1 ∷ []))

unfoldable pub replacement : Text → Text → Text
replacement inside name =
    let lowered = map lower_name name in
    if is_allowed lowered then park (is_closing inside) lowered else []

-- The tag behind an opening bracket: what replaces it, and its length up to the closing one.
unfoldable pub tag_at : Text → Option (Text × ℕ)
tag_at s = elim (until_bracket s) [
  | none ↦ none
  | some inside ↦ elim (tag_name inside) [
    | none ↦ none
    | some name ↦ some (replacement inside name, suc (length inside))
  ]
]

-- tagRe.ReplaceAllStringFunc: the number is of the characters of a tag that are still to be passed over.
unfoldable pub strip_tags : ℕ → Text → Text
strip_tags skip [] = []
strip_tags (suc skip) (c ∷ s) = strip_tags skip s
strip_tags zero (c ∷ s) = elim (if c == b'<' then tag_at s else none) [
  | none ↦ c ∷ strip_tags zero s
  | some t ↦ t.0 ++ strip_tags t.1 s
]

unfoldable pub drop_brackets : Text → Text
drop_brackets = keep (λ c. not (c == b'<'))

abbrev pub unpark : ℕ → ℕ
unpark c = if c == 0 then b'<' else (if c == 1 then b'>' else c)

-- arrowRe.ReplaceAllString(s, "->"): the number is of the dashes just before.
unfoldable pub collapse_arrows : ℕ → Text → Text
collapse_arrows dashes [] = replicate dashes b'-'
collapse_arrows dashes (c ∷ s) =
    let fresh = collapse_arrows zero s in
    let more = collapse_arrows (suc dashes) s in
    if c == b'-'
    then more
    else if c == b'>' && leb 2 dashes
    then b'-' ∷ c ∷ fresh
    else replicate dashes b'-' ++ c ∷ fresh

-- strings.Split(s, "\n"), and strings.Join with the same.
abbrev pub first_line : ℕ → List Text → List Text
first_line c [] = (c ∷ []) ∷ []
first_line c (l ∷ lines) = (c ∷ l) ∷ lines

unfoldable pub split_lines : Text → List Text
split_lines [] = [] ∷ []
split_lines (c ∷ s) =
    let lines = split_lines s in if c == b'\n' then [] ∷ lines else first_line c lines

unfoldable pub join_lines : List Text → Text
join_lines [] = []
join_lines (l ∷ []) = l
join_lines (l ∷ m ∷ lines) = l ++ b'\n' ∷ join_lines (m ∷ lines)

abbrev pub is_blank : Text → Bool
is_blank s = text_eq (trim_space s) []

-- dropBlankLines.
unfoldable pub drop_blank_lines : Text → Text
drop_blank_lines s = join_lines (keep (λ l. not (is_blank l)) (split_lines s))

-- sanitizeText up to the restored tags, and as a whole.
unfoldable pub clean_markup : Text → Text
clean_markup s = map unpark (drop_brackets (strip_tags zero (collapse_control_chars s)))

unfoldable pub sanitize_text : Text → Text
sanitize_text s = trim_space (drop_blank_lines (collapse_arrows zero (clean_markup s)))
