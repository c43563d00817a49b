-- ===== src/Subtitle/Render/Clock.antt =====
-- internal/subtitle/subtitle.go: the timing line of a rendered cue is read back.
use moan_subs.Prelude.{
  ℕ, ◌+◌, ◌*◌, ◌/◌, ◌%◌, ◌<◌, ◌≡◌, refl, sym, ap, ◌∙◌, false, [], ◌∷◌, ◌++◌, some, arith,
  append-nil,
}
use moan_subs.Prelude.Int.{pos}
use moan_subs.Prelude.Text.{Text, codes}
use moan_subs.Subtitle.Timing.{two_digits, three_digits, time_at, times_at, cue_times, seconds}
use moan_subs.Subtitle.Sanitize.{skip_spaces, is_tag_space}
use moan_subs.Subtitle.Render.{format_timestamp, timing_line}
use moan_subs.Subtitle.Render.Digits.{
  print_two-digits, print_three-digits, take_two, take_three, sixty_two, two_value, three_value,
}

clock_value :
    (h m s f : ℕ)
    → h < 100
    → m < 60
    → s < 60
    → f < 1000
    → seconds (two_digits h) (two_digits m) (two_digits s) (three_digits f)
      ≡ h * 3600000000000 + m * 60000000000 + s * 1000000000 + f * 1000000
unfolding seconds
clock_value h m s f hh hm hs hf =
    let a = two_value h hh in
    let b = two_value m (omega arith) in
    let c = two_value s (omega arith) in let d = three_value f hf in rw (a, b, c, d) (omega arith)

read_clock :
    (h m s f : ℕ) (rest : Text)
    → h < 100
    → m < 60
    → s < 60
    → f < 1000
    → time_at (
        two_digits h
        ++ b':' ∷ (two_digits m ++ b':' ∷ (two_digits s ++ b',' ∷ (three_digits f ++ rest))))
      ≡ some (h * 3600000000000 + m * 60000000000 + s * 1000000000 + f * 1000000, rest)
unfolding time_at
read_clock h m s f rest hh hm hs hf =
    let t6 = three_digits f ++ rest in
    let t4 = two_digits s ++ b',' ∷ t6 in
    let t2 = two_digits m ++ b':' ∷ t4 in
    rw
      (
        take_two h t2 hh,
        sixty_two m (b':' ∷ t4) hm,
        sixty_two s (b',' ∷ t6) hs,
        take_three f rest hf,
        time_at,
      )
      (ap (λ (v : ℕ). some (v, rest)) (clock_value h m s f hh hm hs hf))

-- A time of whole milliseconds below a hundred hours.
abbrev pub IsClock : ℕ → Type 0
IsClock n = (n % 1000000 ≡ 0) × (n < 360000000000000)

pub format-digits :
    (n : ℕ)
    → IsClock n
    → format_timestamp (pos n) b','
      ≡ two_digits (n / 1000000 / 3600000)
        ++ b':'
          ∷ (two_digits (n / 1000000 % 3600000 / 60000)
              ++ b':'
                ∷ (two_digits (n / 1000000 % 60000 / 1000)
                    ++ b',' ∷ three_digits (n / 1000000 % 1000)))
unfolding format_timestamp
format-digits n (whole, below) =
    let t = n / 1000000 in
    rw
      (
        print_two-digits (t / 3600000) (omega arith),
        print_two-digits (t % 3600000 / 60000) (omega arith),
        print_two-digits (t % 60000 / 1000) (omega arith),
        print_three-digits (t % 1000) (omega arith),
      )
      refl

total :
    (h m s f t n : ℕ)
    → h * 3600000 + m * 60000 + s * 1000 + f ≡ t
    → t * 1000000 ≡ n
    → h * 3600000000000 + m * 60000000000 + s * 1000000000 + f * 1000000 ≡ n
total h m s f t n e d = omega arith

read_format :
    (n : ℕ) (rest : Text)
    → IsClock n
    → time_at (format_timestamp (pos n) b',' ++ rest) ≡ some (n, rest)
read_format n rest (whole, below) =
    let t = n / 1000000 in
    let scaled : t * 1000000 ≡ n = omega arith in
    let parts : t / 3600000 * 3600000
          + t % 3600000 / 60000 * 60000
          + t % 60000 / 1000 * 1000
          + t % 1000
        ≡ t =
      omega arith in
    ap (λ (x : Text). time_at (x ++ rest)) (format-digits n (whole, below))
    ∙ read_clock (t / 3600000) (t % 3600000 / 60000) (t % 60000 / 1000) (t % 1000) rest
        (omega arith) (omega arith) (omega arith) (omega arith)
    ∙ ap (λ (v : ℕ). some (v, rest))
        (total (t / 3600000) (t % 3600000 / 60000) (t % 60000 / 1000) (t % 1000) t n parts scaled)

-- White space stands before no rendered time.
skip-format :
    (n : ℕ)
    → IsClock n
    → skip_spaces (b' ' ∷ format_timestamp (pos n) b',') ≡ format_timestamp (pos n) b','
skip-format n (whole, below) =
    let h = n / 1000000 / 3600000 in
    let digit : is_tag_space (b'0' + h / 10) ≡ false = ground arith in
    ap (λ (x : Text). skip_spaces (b' ' ∷ x)) (format-digits n (whole, below))
    ∙ rw digit refl
    ∙ sym (format-digits n (whole, below))

append_nothing : (n : ℕ) → IsClock n → time_at (format_timestamp (pos n) b',') ≡ some (n, [])
append_nothing n clock =
    ap time_at (sym (append-nil (format_timestamp (pos n) b','))) ∙ read_format n [] clock

times-timing_line :
    (a b : ℕ)
    → IsClock a
    → IsClock b
    → times_at (format_timestamp (pos a) b',' ++ (codes " --> " ++ format_timestamp (pos b) b','))
      ≡ some (a, b)
unfolding times_at
times-timing_line a b ha hb =
    rw
      (
        read_format a (codes " --> " ++ format_timestamp (pos b) b',') ha,
        skip-format b hb,
        append_nothing b hb,
        times_at,
      )
      refl

-- The timing line of a cue with times of whole milliseconds below a hundred hours is read back.
pub cue_times-timing_line :
    (a b : ℕ) (text : Text)
    → IsClock a
    → IsClock b
    → cue_times (timing_line b',' (record { start = pos a; end = pos b; text = text }))
      ≡ some (a, b)
unfolding cue_times
cue_times-timing_line a b text ha hb =
    let h = a / 1000000 / 3600000 in
    let later = codes " --> " ++ format_timestamp (pos b) b',' in
    ap cue_times (ap (λ (x : Text). x ++ later) (format-digits a ha))
    ∙ rw
        (
          sym (ap times_at (ap (λ (x : Text). x ++ later) (format-digits a ha)))
              ∙ times-timing_line a b ha hb,
          cue_times,
        )
        refl
