-- ===== src/Work/Overlapping.antt =====
-- internal/work/infer.go: a candidate does not depend on which release is asked about first.
use moan_subs.Prelude.{
  ℕ, ◌+◌, ◌-◌, ◌*◌, ◌≤◌, ◌≡◌, refl, sym, ap, ◌∙◌, Bool, true, false, not, ◌||◌, List, [], ◌∷◌,
  Option, none, some, arith, ltb, if◌then◌else◌, any, count, keep, Bool-cases, inl, inr,
}
use moan_subs.Prelude.Text.{Text, text_eq, text_eq_refl, eq-text_eq}
use moan_subs.Prelude.Unicode.{Unicode}
use moan_subs.Work.{
  Candidate, in_lines, overlap_of, spoken_lines, distinct_lines, overlap,
  subtitle_overlap_candidate, normalise_line, name_duration_candidate, is_blank_line,
  min_shared_lines, max_name_duration_delta_ms,
}

text_eq_comm : (s t : Text) → text_eq s t ≡ text_eq t s
text_eq_comm [] [] = refl
text_eq_comm [] (d ∷ t) = refl
text_eq_comm (c ∷ s) [] = refl
text_eq_comm (c ∷ s) (d ∷ t) = ground (arith, text_eq_comm s t)

-- No line twice.
abbrev IsDistinct : List Text → Type 0
IsDistinct [] = Unit {0}
IsDistinct (l ∷ lines) = (in_lines lines l ≡ false) × IsDistinct lines

kept_absent :
    (q p : Text → Bool) (lines : List Text) → count q lines ≡ 0 → any q (keep p lines) ≡ false
kept_absent q p [] h = refl
kept_absent q p (l ∷ lines) h = elim (Bool-cases (q l)) [
  | inl e ↦ absurd (ground arith)
  | inr e ↦
      let rest = kept_absent q p lines (rw e at h) in
      elim (Bool-cases (p l)) [ inl d ↦ rw (d, e) rest | inr d ↦ rw d rest ]
]

keep-IsDistinct :
    (p : Text → Bool) (lines : List Text)
    → ((l : Text) → p l ≡ true → count (text_eq l) lines ≤ 1)
    → IsDistinct (keep p lines)
keep-IsDistinct p [] h = tt
keep-IsDistinct p (l ∷ lines) h =
    let rest = keep-IsDistinct p lines (λ k e. let few = h k e in ground (arith, few)) in
    elim (Bool-cases (p l)) [
      | inl e ↦
          let alone : count (text_eq l) lines ≡ 0 =
            let few = h l e in ground (arith, few, text_eq_refl l) in
          rw e (kept_absent (text_eq l) p lines alone, rest)
      | inr e ↦ rw e rest
    ]

distinct_lines-IsDistinct : (u : Unicode) (cues : List Text) → IsDistinct (distinct_lines u cues)
unfolding distinct_lines
distinct_lines-IsDistinct u cues = keep-IsDistinct _ (spoken_lines u cues) (λ l e. ground arith)

-- A line of distinct ones is counted once.
count-line :
    (a : Text) (lines : List Text)
    → IsDistinct lines
    → count (λ l. text_eq l a) lines ≡ (if in_lines lines a then 1 else 0)
count-line a [] h = refl
count-line a (l ∷ lines) (alone, h) = elim (Bool-cases (text_eq l a)) [
  | inl e ↦
      let same : l ≡ a = eq-text_eq l a e in
      let absent : in_lines lines a ≡ false = ap (in_lines lines) (sym same) ∙ alone in
      ground (arith, text_eq_comm l a, count-line a lines h)
  | inr e ↦ ground (arith, text_eq_comm l a, count-line a lines h)
]

-- With a line more on the other side, a line in common is that one or another.
count-more :
    (a : Text) (more lines : List Text)
    → in_lines more a ≡ false
    → count (in_lines (a ∷ more)) lines
      ≡ count (λ l. text_eq l a) lines + count (in_lines more) lines
count-more a more [] absent = refl
count-more a more (l ∷ lines) absent = elim (Bool-cases (text_eq l a)) [
  | inl e ↦
      let other : in_lines more l ≡ false = ap (in_lines more) (eq-text_eq l a e) ∙ absent in
      rw (e, other) (ground (arith, count-more a more lines absent))
  | inr e ↦ ground (arith, count-more a more lines absent)
]

count-none_in : (lines : List Text) → count (in_lines []) lines ≡ 0
count-none_in [] = refl
count-none_in (l ∷ lines) = count-none_in lines

-- Of distinct lines as many of the first are in the second as of the second in the first.
shared_comm :
    (a b : List Text) → IsDistinct a → IsDistinct b → count (in_lines b) a ≡ count (in_lines a) b
shared_comm [] b ha hb = sym (count-none_in b)
shared_comm (l ∷ a) b (alone, ha) hb =
    let rest = shared_comm a b ha hb in
    let more = count-more l a b alone in
    let once = count-line l b hb in ground (arith, rest, more, once)

overlap_of_comm : (a b : List Text) → IsDistinct a → IsDistinct b → overlap_of a b ≡ overlap_of b a
unfolding overlap_of
overlap_of_comm a b ha hb = ground (arith, shared_comm a b ha hb)

abbrev pub swapped : Option Candidate → Option Candidate
swapped none = none
swapped (some c) = some (record c { release_a = c.release_b; release_b = c.release_a })

abbrev pub IsFraction : Option Candidate → Type 0
IsFraction none = Unit {0}
IsFraction (some c) = c.confidence.0 ≤ c.confidence.1

subtitle_overlap-swapped :
    (u : Unicode) (rel_a rel_b : ℕ) (a b : List Text)
    → subtitle_overlap_candidate u rel_b rel_a b a
      ≡ swapped (subtitle_overlap_candidate u rel_a rel_b a b)
unfolding subtitle_overlap_candidate overlap
subtitle_overlap-swapped u rel_a rel_b a b =
    rw
      (overlap_of_comm (distinct_lines u b) (distinct_lines u a) (distinct_lines-IsDistinct u b)
        (distinct_lines-IsDistinct u a))
      (elim (Bool-cases
        (ltb (overlap u a b).0 min_shared_lines || ltb ((overlap u a b).0 * 4) (overlap u a b).1)) [
          | inl e ↦ rw e refl
          | inr e ↦ rw e refl
        ])

delta_comm : (m n : ℕ) → (if ltb n m then m - n else n - m) ≡ (if ltb m n then n - m else m - n)
delta_comm m n = ground arith

-- The guard on two names.
unlike : Text → Text → Bool
unlike a b = is_blank_line a || not (text_eq a b)

unlike_comm : (a b : Text) → unlike b a ≡ unlike a b
unfolding unlike
unlike_comm a b = elim (Bool-cases (text_eq a b)) [
  | inl e ↦ let same : a ≡ b = eq-text_eq a b e in rw same refl
  | inr e ↦
      let other : text_eq b a ≡ false = text_eq_comm b a ∙ e in
      rw (e, other) (both_or (is_blank_line a) (is_blank_line b))
]
  where
    both_or : (x y : Bool) → (y || true) ≡ (x || true)
    both_or true true = refl
    both_or true false = refl
    both_or false true = refl
    both_or false false = refl

name_duration-swapped :
    (u : Unicode) (rel_a rel_b : ℕ) (a b : Text) (m n : ℕ)
    → name_duration_candidate u rel_b rel_a b a n m
      ≡ swapped (name_duration_candidate u rel_a rel_b a b m n)
unfolding name_duration_candidate unlike
name_duration-swapped u rel_a rel_b a b m n =
    let delta = if ltb m n then n - m else m - n in
    let guards = unlike_comm (normalise_line u a) (normalise_line u b) in
    rw (delta_comm m n, guards)
      (elim (Bool-cases (unlike (normalise_line u a) (normalise_line u b))) [
        | inl e ↦ rw e refl
        | inr e ↦ rw e (elim (Bool-cases (ltb max_name_duration_delta_ms delta)) [
          | inl d ↦ rw d refl
          | inr d ↦ rw d refl
        ])
      ])

subtitle_overlap-IsFraction :
    (u : Unicode) (rel_a rel_b : ℕ) (a b : List Text)
    → IsFraction (subtitle_overlap_candidate u rel_a rel_b a b)
unfolding subtitle_overlap_candidate
subtitle_overlap-IsFraction u rel_a rel_b a b =
    elim (Bool-cases
      (ltb (overlap u a b).0 min_shared_lines || ltb ((overlap u a b).0 * 4) (overlap u a b).1)) [
        | inl e ↦ rw e tt
        | inr e ↦ rw e (ground arith)
      ]

name_duration-IsFraction :
    (u : Unicode) (rel_a rel_b : ℕ) (a b : Text) (m n : ℕ)
    → IsFraction (name_duration_candidate u rel_a rel_b a b m n)
unfolding name_duration_candidate unlike
name_duration-IsFraction u rel_a rel_b a b m n =
    elim (Bool-cases (unlike (normalise_line u a) (normalise_line u b))) [
      | inl e ↦ rw e tt
      | inr e ↦
          rw e
            (elim (Bool-cases (ltb max_name_duration_delta_ms (if ltb m n then n - m else m - n))) [
              | inl d ↦ rw d tt
              | inr d ↦ rw d (omega arith)
            ])
    ]

-- The same pairing is proposed, with the same signal and confidence, whichever of two releases is asked
-- about first, by shared lines of the subtitles as by names and runtimes; a confidence is at most one.
pub candidates_comm :
    (u : Unicode) (rel_a rel_b : ℕ) (cues_a cues_b : List Text) (name_a name_b : Text)
    (dur_a dur_b : ℕ)
    → (subtitle_overlap_candidate u rel_b rel_a cues_b cues_a
        ≡ swapped (subtitle_overlap_candidate u rel_a rel_b cues_a cues_b))
      × IsFraction (subtitle_overlap_candidate u rel_a rel_b cues_a cues_b)
      × (name_duration_candidate u rel_b rel_a name_b name_a dur_b dur_a
          ≡ swapped (name_duration_candidate u rel_a rel_b name_a name_b dur_a dur_b))
      × IsFraction (name_duration_candidate u rel_a rel_b name_a name_b dur_a dur_b)
candidates_comm u rel_a rel_b cues_a cues_b name_a name_b dur_a dur_b = (
  subtitle_overlap-swapped u rel_a rel_b cues_a cues_b,
  subtitle_overlap-IsFraction u rel_a rel_b cues_a cues_b,
  name_duration-swapped u rel_a rel_b name_a name_b dur_a dur_b,
  name_duration-IsFraction u rel_a rel_b name_a name_b dur_a dur_b,
)
