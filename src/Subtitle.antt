-- ===== src/Subtitle.antt =====
-- internal/subtitle/: cues. A time is a number of nanoseconds, of either sign as a time.Duration.
pub mod Clamp
pub mod Separation
pub mod Kind
pub mod Sanitize
pub mod Timing
pub mod Parse
pub mod Render
use moan_subs.Prelude.Int.{ℤ}
use moan_subs.Prelude.Text.{Text}

pub record Cue : Type 0 where
  pub start : ℤ
  pub end : ℤ
  pub text : Text
