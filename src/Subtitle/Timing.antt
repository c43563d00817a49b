-- ===== src/Subtitle/Timing.antt =====
-- internal/subtitle/subtitle.go: the timing line of a cue, read and written. A time is a number of
-- nanoseconds.
use moan_subs.Prelude.{
  ℕ, zero, suc, ◌+◌, ◌-◌, ◌*◌, ◌/◌, ◌%◌, ◌&&◌, ◌||◌, [], ◌∷◌, Option, none, some, leb, ◌==◌,
  if◌then◌else◌, length,
}
use moan_subs.Prelude.Maybe.{◌>>=◌}
use moan_subs.Prelude.Text.{Text}
use moan_subs.Prelude.Unicode.{is_ascii_digit}
use moan_subs.Subtitle.Sanitize.{skip_spaces}

-- cueTimeRe: `(\d{1,3}):([0-5]\d):([0-5]\d)[.,](\d{1,3})\s*-->\s*` and the same time again. At most n
-- digits are taken, greedily; a shorter run of them could not go on either.
unfoldable pub take_digits : ℕ → Text → Text × Text
take_digits zero s = ([], s)
take_digits (suc n) [] = ([], [])
take_digits (suc n) (c ∷ s) =
    let (front, back) = take_digits n s in
    if is_ascii_digit c then (c ∷ front, back) else ([], c ∷ s)

abbrev pub found_digits : Text × Text → Option (Text × Text)
found_digits ([], s) = none
found_digits (c ∷ front, s) = some (c ∷ front, s)

unfoldable pub some_digits : Text → Option (Text × Text)
some_digits s = found_digits (take_digits 3 s)

unfoldable pub sixty : Text → Option (Text × Text)
sixty [] = none
sixty (c ∷ []) = none
sixty (c ∷ d ∷ s) =
    if leb b'0' c && leb c b'5' && is_ascii_digit d then some (c ∷ d ∷ [], s) else none

abbrev pub literal : ℕ → Text → Option Text
literal d [] = none
literal d (c ∷ s) = if c == d then some s else none

abbrev pub fraction_point : Text → Option Text
fraction_point [] = none
fraction_point (c ∷ s) = if c == b'.' || c == b',' then some s else none

-- strconv.Atoi on digits.
abbrev pub digits_value : Text → ℕ → ℕ
digits_value [] n = n
digits_value (c ∷ s) n = digits_value s (n * 10 + (c - b'0'))

-- seconds.
abbrev pub fraction_scale : Text → ℕ
fraction_scale frac = if length frac == 1 then 100 else (if length frac == 2 then 10 else 1)

unfoldable pub seconds : Text → Text → Text → Text → ℕ
seconds h m s frac =
    digits_value h 0 * 3600000000000
    + digits_value m 0 * 60000000000
    + digits_value s 0 * 1000000000
    + digits_value frac 0 * fraction_scale frac * 1000000

unfoldable pub time_at : Text → Option (ℕ × Text)
time_at t = do
  (h, t1) ← some_digits t
  t2 ← literal b':' t1
  (m, t3) ← sixty t2
  t4 ← literal b':' t3
  (s, t5) ← sixty t4
  t6 ← fraction_point t5
  (frac, t7) ← some_digits t6
  some (seconds h m s frac, t7)

unfoldable pub times_at : Text → Option (ℕ × ℕ)
times_at t = do
  (start, t1) ← time_at t
  t2 ← literal b'-' (skip_spaces t1)
  t3 ← literal b'-' t2
  t4 ← literal b'>' t3
  (end, t5) ← time_at (skip_spaces t4)
  some (start, end)

-- cueTimeRe.FindStringSubmatch: the leftmost match.
abbrev pub or_later : Option (ℕ × ℕ) → Option (ℕ × ℕ) → Option (ℕ × ℕ)
or_later none later = later
or_later (some t) later = some t

unfoldable pub cue_times : Text → Option (ℕ × ℕ)
cue_times [] = none
cue_times (c ∷ s) = or_later (times_at (c ∷ s)) (cue_times s)

-- formatTimestamp.
abbrev pub two_digits : ℕ → Text
two_digits n = (b'0' + n / 10) ∷ (b'0' + n % 10) ∷ []

abbrev pub three_digits : ℕ → Text
three_digits n = (b'0' + n / 100) ∷ (b'0' + n / 10 % 10) ∷ (b'0' + n % 10) ∷ []
