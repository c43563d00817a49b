-- ===== src/Examples/Corrections.antt =====
-- The theorems on kinds and corrections of tracks at concrete inputs.
use moan_subs.Prelude.{◌≤◌, ◌≡◌, refl, true, false, some, any, length}
use moan_subs.Prelude.Result.{ok}
use moan_subs.Prelude.Text.{codes}
use moan_subs.Prelude.Unicode.{is_control, trim_space, trim_left, trim_right, is_space}
use moan_subs.Store.Schema.{Db, uncredited}
use moan_subs.Store.Tracks.{kind_allowed, reason_or_null}
use moan_subs.Store.Tracks.Corrections.{own_track, set_authorship, update_subtitle_track_authorship}
use moan_subs.Store.Table.{update_where}
use moan_subs.Subtitle.Kind.{valid_kind, check_label, normalize_kind, normalize_kind-accepted}
use moan_subs.Examples.Data.{sample}

labelled : normalize_kind (codes "other") (codes " karaoke ") ≡ ok (codes "other", codes "karaoke")
unfolding normalize_kind valid_kind check_label trim_space trim_left trim_right is_space is_control
labelled = refl

normalize_kind-accepted_example :
    (kind_allowed (codes "other") (reason_or_null (codes "karaoke")) ≡ true)
    × (any is_control (codes "karaoke") ≡ false)
    × (length (codes "karaoke") ≤ 40)
normalize_kind-accepted_example =
    normalize_kind-accepted (codes "other") (codes " karaoke ") (codes "other") (codes "karaoke")
      labelled

abbrev declared : Db
declared = record sample {
  tracks = update_where (own_track 11 1) (set_authorship (some uncredited) true) sample.tracks;
}

declares :
    update_subtitle_track_authorship 11 (some uncredited) true 1 sample
    ≡ ok (declared, uncredited, true)
unfolding update_subtitle_track_authorship
declares = refl
