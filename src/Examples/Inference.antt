-- ===== src/Examples/Inference.antt =====
-- The theorem on proposed groupings at two names of one film.
use moan_subs.Prelude.{ℕ, ◌≡◌, refl, List, [], ◌∷◌, none, some}
use moan_subs.Prelude.Text.{Text, codes}
use moan_subs.Prelude.Unicode.{ascii_tables}
use moan_subs.Work.{
  name_duration, name_duration_candidate, normalise_line, squeeze, subtitle_overlap_candidate,
}
use moan_subs.Work.Overlapping.{swapped, IsFraction, candidates_comm}

abbrev plain_name : Text
plain_name = codes "la novia celosa"

abbrev dressed_name : Text
dressed_name = codes "La  Novia, Celosa!"

-- The names match but for case, punctuation and white space.
matched :
    name_duration_candidate ascii_tables 1 2 plain_name dressed_name 60000 75000
    ≡ some (record {
      release_a = 1;
      release_b = 2;
      signal = name_duration;
      confidence = (45000, 60000);
    })
unfolding name_duration_candidate normalise_line squeeze moan_subs.Prelude.Unicode.trim_space
    moan_subs.Prelude.Unicode.trim_left moan_subs.Prelude.Unicode.trim_right
    moan_subs.Prelude.Unicode.is_space
matched = refl

abbrev lines : List Text
lines = codes "Where is she?" ∷ codes "Yes." ∷ []

candidates_comm_example :
    (subtitle_overlap_candidate ascii_tables 2 1 lines lines
      ≡ swapped (subtitle_overlap_candidate ascii_tables 1 2 lines lines))
    × IsFraction (subtitle_overlap_candidate ascii_tables 1 2 lines lines)
    × (name_duration_candidate ascii_tables 2 1 dressed_name plain_name 75000 60000
        ≡ swapped (name_duration_candidate ascii_tables 1 2 plain_name dressed_name 60000 75000))
    × IsFraction (name_duration_candidate ascii_tables 1 2 plain_name dressed_name 60000 75000)
candidates_comm_example =
    candidates_comm ascii_tables 1 2 lines lines plain_name dressed_name 60000 75000
