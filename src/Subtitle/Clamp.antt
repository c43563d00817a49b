-- ===== src/Subtitle/Clamp.antt =====
-- internal/subtitle/clamp.go: ClampCues.
use moan_subs.Prelude.{List, [], ◌∷◌, if◌then◌else◌}
use moan_subs.Prelude.Int.{ℤ, pos, ◌+ℤ◌, ◌-ℤ◌, ltb_ℤ, leb_ℤ}
use moan_subs.Subtitle.{Cue}

abbrev pub max_cue_duration : ℤ
max_cue_duration = pos 7000000000

abbrev pub min_cue_duration : ℤ
min_cue_duration = pos 1200000000

abbrev pub cue_gap : ℤ
cue_gap = pos 40000000

abbrev pub min_cue_sliver : ℤ
min_cue_sliver = pos 50000000

-- The two bounds on a cue's duration, in the order of the code.
unfoldable pub bounded_end : ℤ → ℤ → ℤ
bounded_end start end =
    let top = if ltb_ℤ (start +ℤ max_cue_duration) end then start +ℤ max_cue_duration else end in
    if ltb_ℤ top (start +ℤ min_cue_duration) then start +ℤ min_cue_duration else top

-- The end that a cue yields to a next one that starts at `next`.
unfoldable pub trimmed_end : ℤ → ℤ → ℤ → ℤ
trimmed_end start end next =
    if ltb_ℤ (next -ℤ cue_gap) end
    then (let full = next -ℤ cue_gap in
        let near = if leb_ℤ full start then next else full in
        if leb_ℤ near start then start +ℤ min_cue_sliver else near)
    else end

abbrev pub bound : Cue → Cue
bound c = record c { end = bounded_end c.start c.end }

abbrev pub trim : Cue → Cue → Cue
trim c next = record c { end = trimmed_end c.start c.end next.start }

-- The loop. The last cue of the output is held back, since the next cue may still trim it.
unfoldable pub clamp_from : Cue → List Cue → List Cue
clamp_from last [] = last ∷ []
clamp_from last (c ∷ cues) = trim last c ∷ clamp_from (bound c) cues

unfoldable pub clamp_cues : List Cue → List Cue
clamp_cues [] = []
clamp_cues (c ∷ cues) = clamp_from (bound c) cues
