-- ===== src/Subtitle/Separation.antt =====
-- internal/subtitle/clamp.go: what holds of the cues after ClampCues.
use moan_subs.Prelude.{◌≡◌, refl, ap, ◌∙◌, List, [], ◌∷◌, map, All, arith}
use mathlib.Core.Path.{ap₂}
use moan_subs.Prelude.Int.{ℤ, ◌+ℤ◌, ◌-ℤ◌, ◌≤ℤ◌, ◌<ℤ◌, +ℤ_parts, -ℤ_parts}
use moan_subs.Prelude.Text.{Text}
use moan_subs.Subtitle.{Cue}
use moan_subs.Subtitle.Clamp.{
  max_cue_duration, min_cue_duration, cue_gap, min_cue_sliver, bounded_end, trimmed_end, bound,
  trim, clamp_from, clamp_cues,
}

abbrev pub shown : Cue → ℤ × Text
shown c = (c.start, c.text)

-- A cue that is on screen for some time, and for at most seven seconds.
abbrev pub IsHeld : Cue → Type 0
IsHeld c = (c.start <ℤ c.end) × (c.end ≤ℤ c.start +ℤ max_cue_duration)

-- A cue is gone when a next one that starts later begins, and the gap before it where there is room.
abbrev pub Yields : Cue → Cue → Type 0
Yields c d =
    (c.start <ℤ d.start → c.end ≤ℤ d.start)
    × (c.start +ℤ cue_gap <ℤ d.start → c.end ≤ℤ d.start -ℤ cue_gap)

abbrev pub IsSpaced : List Cue → Type 0
IsSpaced [] = Unit
IsSpaced (c ∷ []) = Unit
IsSpaced (c ∷ d ∷ cues) = Yields c d × IsSpaced (d ∷ cues)

bound-IsHeld : (s e : ℤ) → (s <ℤ bounded_end s e) × (bounded_end s e ≤ℤ s +ℤ max_cue_duration)
unfolding bounded_end
bound-IsHeld s e = (
  ground (arith, +ℤ_parts s max_cue_duration, +ℤ_parts s min_cue_duration),
  ground (arith, +ℤ_parts s max_cue_duration, +ℤ_parts s min_cue_duration),
)

trim-IsHeld :
    (s e n : ℤ)
    → (s <ℤ e) × (e ≤ℤ s +ℤ max_cue_duration)
    → (s <ℤ trimmed_end s e n) × (trimmed_end s e n ≤ℤ s +ℤ max_cue_duration)
unfolding trimmed_end
trim-IsHeld s e n h = (
  ground (arith, +ℤ_parts s max_cue_duration, +ℤ_parts s min_cue_sliver, -ℤ_parts n cue_gap),
  ground (arith, +ℤ_parts s max_cue_duration, +ℤ_parts s min_cue_sliver, -ℤ_parts n cue_gap),
)

trim-Yields :
    (s e n : ℤ)
    → (s <ℤ n → trimmed_end s e n ≤ℤ n) × (s +ℤ cue_gap <ℤ n → trimmed_end s e n ≤ℤ n -ℤ cue_gap)
unfolding trimmed_end
trim-Yields s e n = (
  λ h. ground (arith, +ℤ_parts s min_cue_sliver, -ℤ_parts n cue_gap, +ℤ_parts s cue_gap),
  λ h. ground (arith, +ℤ_parts s min_cue_sliver, -ℤ_parts n cue_gap, +ℤ_parts s cue_gap),
)

again :
    (s e n : ℤ)
    → trimmed_end s (bounded_end s (trimmed_end s (bounded_end s e) n)) n
      ≡ trimmed_end s (bounded_end s e) n
unfolding trimmed_end bounded_end
again s e n = ground (
  arith,
  +ℤ_parts s max_cue_duration,
  +ℤ_parts s min_cue_duration,
  +ℤ_parts s min_cue_sliver,
  -ℤ_parts n cue_gap,
)

clamp_from-shown :
    (last : Cue) (cues : List Cue) → map shown (clamp_from last cues) ≡ map shown (last ∷ cues)
unfolding clamp_from
clamp_from-shown last [] = refl
clamp_from-shown last (c ∷ cues) = ap (◌∷◌ (shown last)) (clamp_from-shown (bound c) cues)

clamp_from-IsHeld : (last : Cue) (cues : List Cue) → IsHeld last → All IsHeld (clamp_from last cues)
unfolding clamp_from
clamp_from-IsHeld last [] h = (h, tt)
clamp_from-IsHeld last (c ∷ cues) h = (
  trim-IsHeld last.start last.end c.start h,
  clamp_from-IsHeld (bound c) cues (bound-IsHeld c.start c.end),
)

-- Trimming changes no start, so what yields to a cue yields to it trimmed.
clamp_from-IsSpaced : (last : Cue) (cues : List Cue) → IsSpaced (clamp_from last cues)
unfolding clamp_from
clamp_from-IsSpaced last [] = tt
clamp_from-IsSpaced last (c ∷ []) = (trim-Yields last.start last.end c.start, tt)
clamp_from-IsSpaced last (c ∷ d ∷ cues) =
    (trim-Yields last.start last.end c.start, clamp_from-IsSpaced (bound c) (d ∷ cues))

-- Clamping keeps every cue with its start and text, in order. Each is then held for some time and at
-- most seven seconds, and yields to the next one: it is gone when a later one starts, and 40
-- milliseconds before where they start further apart than that.
pub clamp_cues_lem :
    (cues : List Cue)
    → (map shown (clamp_cues cues) ≡ map shown cues)
      × All IsHeld (clamp_cues cues)
      × IsSpaced (clamp_cues cues)
unfolding clamp_cues
clamp_cues_lem [] = (refl, tt, tt)
clamp_cues_lem (c ∷ cues) = (
  clamp_from-shown (bound c) cues,
  clamp_from-IsHeld (bound c) cues (bound-IsHeld c.start c.end),
  clamp_from-IsSpaced (bound c) cues,
)

bounded_twice : (s e : ℤ) → bounded_end s (bounded_end s e) ≡ bounded_end s e
unfolding bounded_end
bounded_twice s e = ground (arith, +ℤ_parts s max_cue_duration, +ℤ_parts s min_cue_duration)

clamp_from-onto :
    (x last : Cue) (cues : List Cue)
    → clamp_from x (clamp_from last cues) ≡ trim x last ∷ clamp_cues (clamp_from last cues)
unfolding clamp_cues clamp_from
clamp_from-onto x last [] = refl
clamp_from-onto x last (c ∷ cues) = refl

clamp_from_twice :
    (s e : ℤ) (text : Text) (cues : List Cue)
    → let last : Cue = record { start = s; end = bounded_end s e; text = text } in
      clamp_cues (clamp_from last cues) ≡ clamp_from last cues
unfolding clamp_cues clamp_from
clamp_from_twice s e text [] =
    ap (λ (t : ℤ). record { start = s; end = t; text = text } ∷ []) (bounded_twice s e)
clamp_from_twice s e text (c ∷ cues) =
    let last : Cue = record { start = s; end = bounded_end s e; text = text } in
    clamp_from-onto (bound (trim last c)) (bound c) cues
    ∙ ap₂ (λ (t : ℤ) (rest : List Cue). record { start = s; end = t; text = text } ∷ rest)
        (again s e c.start) (clamp_from_twice c.start c.end c.text cues)

-- Clamping again changes nothing.
pub clamp_cues_idem : (cues : List Cue) → clamp_cues (clamp_cues cues) ≡ clamp_cues cues
unfolding clamp_cues
clamp_cues_idem [] = refl
clamp_cues_idem (c ∷ cues) = clamp_from_twice c.start c.end c.text cues
