-- ===== src/Work.antt =====
-- internal/work/infer.go: which releases may be the same video, from their subtitles and their names.
-- Package unicode is a parameter, Prelude.Unicode; a fraction is a pair of numbers, and the text that
-- explains a candidate is not part of it.
pub mod Overlapping
use moan_subs.Prelude.{
  ℕ, suc, ◌+◌, ◌-◌, ◌*◌, ◌≤◌, Bool, true, false, not, ◌&&◌, ◌||◌, List, [], ◌∷◌, ◌++◌, Option, none,
  some, ltb, leb, ◌==◌, if◌then◌else◌, any, count, keep, length, map, min,
}
use moan_subs.Prelude.Int.{ℤ, ◌-ℤ◌}
use moan_subs.Prelude.Text.{Text, text_eq}
use moan_subs.Prelude.Unicode.{Unicode, is_space, trim_space}

pub data Signal : Type 0 where
  stash_id subtitle_overlap name_duration : Signal

-- Candidate, with its confidence as a fraction.
pub record Candidate : Type 0 where
  pub release_a : ℕ
  pub release_b : ℕ
  pub signal : Signal
  pub confidence : ℕ × ℕ

abbrev pub min_shared_lines : ℕ
min_shared_lines = 40

-- MaxNameDurationDeltaMs.
abbrev pub max_name_duration_delta_ms : ℕ
max_name_duration_delta_ms = 60000

-- The length in bytes of a text.
abbrev pub rune_length : ℕ → ℕ
rune_length c = if ltb c 0x80 then 1 else if ltb c 0x800 then 2 else if ltb c 0x10000 then 3 else 4

abbrev pub byte_length : Text → ℕ
byte_length [] = 0
byte_length (c ∷ s) = rune_length c + byte_length s

abbrev pub is_blank_line : Text → Bool
is_blank_line [] = true
is_blank_line (c ∷ s) = false

abbrev pub in_lines : List Text → Text → Bool
in_lines lines l = any (text_eq l) lines

-- Overlap, of the two sets of lines.
unfoldable pub overlap_of : List Text → List Text → ℕ × ℕ
overlap_of a b =
    if length a == 0 || length b == 0
    then (0, 0)
    else if ltb (length b) (length a)
    then (count (in_lines a) b, length b)
    else (count (in_lines b) a, length a)

module _ (u : Unicode) where
  -- NormaliseLine: the loop, with whether a space was written last, and the trimming.
  abbrev pub is_word_rune : ℕ → Bool
  is_word_rune c = u.is_letter c || u.is_digit c

  unfoldable pub squeeze : Bool → Text → Text
  squeeze last_space [] = []
  squeeze last_space (c ∷ s) =
      let word = c ∷ squeeze false s in
      let blank = squeeze true s in
      let skipped = squeeze last_space s in
      if is_word_rune c
      then word
      else if is_space c
      then (if last_space then blank else b' ' ∷ blank)
      else skipped

  unfoldable pub normalise_line : Text → Text
  normalise_line s = trim_space (squeeze true (map u.to_lower s))

  -- distinctLines: the lines that occur once, of four bytes or more.
  unfoldable pub spoken_lines : List Text → List Text
  spoken_lines cues = keep (λ l. not (is_blank_line l)) (map normalise_line cues)

  unfoldable pub distinct_lines : List Text → List Text
  distinct_lines cues =
      let lines = spoken_lines cues in
      keep (λ l. count (text_eq l) lines == 1 && leb 4 (byte_length l)) lines

  -- Overlap: the lines in common, and the fewest lines of the two.
  unfoldable pub overlap : List Text → List Text → ℕ × ℕ
  overlap a b = overlap_of (distinct_lines a) (distinct_lines b)

  -- SubtitleOverlapCandidate; the confidence is the fraction over twice the threshold, and at most one.
  unfoldable pub subtitle_overlap_candidate : ℕ → ℕ → List Text → List Text → Option Candidate
  subtitle_overlap_candidate rel_a rel_b cues_a cues_b =
      let (shared, smaller) = overlap cues_a cues_b in
      if ltb shared min_shared_lines || ltb (shared * 4) smaller
      then none
      else some (record {
        release_a = rel_a;
        release_b = rel_b;
        signal = subtitle_overlap;
        confidence = (min smaller (2 * shared), smaller);
      })

  -- NameDurationCandidate.
  unfoldable pub name_duration_candidate : ℕ → ℕ → Text → Text → ℕ → ℕ → Option Candidate
  name_duration_candidate rel_a rel_b name_a name_b dur_a dur_b =
      let na = normalise_line name_a in
      let delta = if ltb dur_a dur_b then dur_b - dur_a else dur_a - dur_b in
      if is_blank_line na || not (text_eq na (normalise_line name_b))
      then none
      else if ltb max_name_duration_delta_ms delta
      then none
      else some (record {
        release_a = rel_a;
        release_b = rel_b;
        signal = name_duration;
        confidence = (max_name_duration_delta_ms - delta, max_name_duration_delta_ms);
      })

-- SuggestedOffsetMs.
unfoldable pub suggested_offset_ms : ℤ → ℤ → ℤ
suggested_offset_ms from_duration_ms to_duration_ms = to_duration_ms -ℤ from_duration_ms
