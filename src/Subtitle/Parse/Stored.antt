-- ===== src/Subtitle/Parse/Stored.antt =====
-- internal/subtitle/subtitle.go: what Parse gives to be stored.
use moan_subs.Prelude.{
  ℕ, ◌≤◌, ◌≡◌, ◌≢◌, refl, true, List, [], ◌∷◌, Option, none, some, arith, leb, All, All-append,
  Bool-cases, Option-cases, inl, inr, length,
}
use moan_subs.Prelude.Int.{pos, ◌≤ℤ◌}
use moan_subs.Prelude.Result.{ok}
use moan_subs.Prelude.Text.{Text}
use moan_subs.Prelude.Unicode.{trim_space}
use moan_subs.Subtitle.{Cue}
use moan_subs.Subtitle.Sanitize.{join_lines, is_blank, sanitize_text}
use moan_subs.Subtitle.Sanitize.Safe.{IsSafe, sanitize_text-IsSafe}
use moan_subs.Subtitle.Timing.{cue_times}
use moan_subs.Subtitle.Parse.{
  max_bytes, max_cues, OpenCue, keep_cue, finish_cue, open_cue, add_line, read_cues, unix_lines,
  parse_text, parse,
}

-- A cue with a text that is safe and not empty.
abbrev pub IsStorable : Cue → Type 0
IsStorable c = IsSafe c.text × (c.text ≢ []) × (pos 0 ≤ℤ c.start) × (pos 0 ≤ℤ c.end)

keep_cue-Storable : (o : OpenCue) (s : Text) → IsSafe s → All IsStorable (keep_cue o s)
keep_cue-Storable o [] h = tt
keep_cue-Storable o (c ∷ s) h = ((h, (λ e. cc), omega arith, omega arith), tt)

trimmed-Storable :
    (o : OpenCue) (raw : Text)
    → All IsStorable (elim raw [ [] ↦ [] | c ∷ s ↦ keep_cue o (sanitize_text (c ∷ s)) ])
trimmed-Storable o [] = tt
trimmed-Storable o (c ∷ s) =
    keep_cue-Storable o (sanitize_text (c ∷ s)) (sanitize_text-IsSafe (c ∷ s))

finish_cue-Storable : (o : OpenCue) → All IsStorable (finish_cue o)
unfolding finish_cue
finish_cue-Storable o = trimmed-Storable o (trim_space (join_lines o.body))

read_cues-Storable : (o : Option OpenCue) (lines : List Text) → All IsStorable (read_cues o lines)
unfolding read_cues
read_cues-Storable none [] = tt
read_cues-Storable (some o) [] = finish_cue-Storable o
read_cues-Storable none (l ∷ lines) = elim (Option-cases (cue_times l)) [
  | inl e ↦ rw (e, read_cues) (read_cues-Storable none lines)
  | inr (t, e) ↦ rw (e, read_cues) (read_cues-Storable (some (open_cue t)) lines)
]
read_cues-Storable (some o) (l ∷ lines) = elim (Option-cases (cue_times l)) [
  | inr (t, e) ↦
      rw (e, read_cues)
        (All-append IsStorable (finish_cue o) _ (finish_cue-Storable o)
          (read_cues-Storable (some (open_cue t)) lines))
  | inl e ↦ elim (Bool-cases (is_blank l)) [
    | inl d ↦
        rw (e, d, read_cues)
          (All-append IsStorable (finish_cue o) _ (finish_cue-Storable o)
            (read_cues-Storable none lines))
    | inr d ↦ rw (e, d, read_cues) (read_cues-Storable (some (add_line l o)) lines)
  ]
]

-- An upload of at most 2 MiB that is valid UTF-8, and in which between one and 10,000 cues are found, is
-- accepted with these cues; each has a text that is safe and not empty, and no negative time.
pub parse-Storable :
    (decode : List ℕ → Option Text) (input : List ℕ) (s : Text)
    → length input ≤ max_bytes
    → decode input ≡ some s
    → 1 ≤ length (read_cues none (unix_lines s))
    → length (read_cues none (unix_lines s)) ≤ max_cues
    → (parse decode input ≡ ok (read_cues none (unix_lines s)))
      × All IsStorable (read_cues none (unix_lines s))
unfolding parse parse_text
parse-Storable decode input s small valid found few =
    let within : leb (length input) max_bytes ≡ true = ground arith in
    let under : leb (length (read_cues none (unix_lines s))) max_cues ≡ true = ground arith in
    let any_cue : leb 1 (length (read_cues none (unix_lines s))) ≡ true = ground arith in
    (rw (within, valid, under, any_cue) refl, read_cues-Storable none (unix_lines s))
