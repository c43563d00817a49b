-- ===== src/Subtitle/Render/Digits.antt =====
-- internal/subtitle/subtitle.go: the digits of a rendered time are read back.
use moan_subs.Prelude.{
  ℕ, suc, ◌+◌, ◌/◌, ◌%◌, ◌≤◌, ◌<◌, ◌≡◌, refl, ap, ◌∙◌, true, false, [], ◌∷◌, ◌++◌, some, arith, ltb,
  leb, Bool-cases, inl, inr,
}
use moan_subs.Prelude.Decimal.{print_decimal}
use moan_subs.Prelude.Text.{Text}
use moan_subs.Prelude.Unicode.{is_ascii_digit}
use moan_subs.Subtitle.Timing.{
  take_digits, found_digits, some_digits, digits_value, two_digits, three_digits, sixty,
}
use moan_subs.Subtitle.Render.{print_two, print_three}

print_decimal-small :
    (n v : ℕ) (out : Text) → v < 10 → print_decimal (suc n) v out ≡ (b'0' + v) ∷ out
unfolding print_decimal
print_decimal-small n v out h = let small : ltb v 10 ≡ true = ground arith in rw small refl

print_decimal-large :
    (n v : ℕ) (out : Text)
    → 10 ≤ v
    → print_decimal (suc n) v out ≡ print_decimal n (v / 10) ((b'0' + v % 10) ∷ out)
unfolding print_decimal
print_decimal-large n v out h = let large : ltb v 10 ≡ false = ground arith in rw large refl

print_decimal-two : (v : ℕ) → 10 ≤ v → v < 100 → print_decimal 20 v [] ≡ two_digits v
print_decimal-two v lo hi =
    print_decimal-large 19 v [] lo
    ∙ print_decimal-small 18 (v / 10) ((b'0' + v % 10) ∷ []) (omega arith)

print_decimal-three : (v : ℕ) → 100 ≤ v → v < 1000 → print_decimal 20 v [] ≡ three_digits v
print_decimal-three v lo hi =
    print_decimal-large 19 v [] (omega arith)
    ∙ print_decimal-large 18 (v / 10) ((b'0' + v % 10) ∷ []) (omega arith)
    ∙ print_decimal-small 17 (v / 10 / 10) ((b'0' + v / 10 % 10) ∷ (b'0' + v % 10) ∷ [])
        (omega arith)
    ∙ ap (λ (d : ℕ). (b'0' + d) ∷ (b'0' + v / 10 % 10) ∷ (b'0' + v % 10) ∷ []) (omega arith)

pub print_two-digits : (n : ℕ) → n < 100 → print_two n ≡ two_digits n
print_two-digits n h = elim (Bool-cases (ltb n 10)) [
  | inl e ↦
      let tens : n / 10 ≡ 0 = ground arith in
      let ones : n % 10 ≡ n = ground arith in rw (e, tens, ones) refl
  | inr e ↦ rw e (print_decimal-two n (ground arith) h)
]

pub print_three-digits : (n : ℕ) → n < 1000 → print_three n ≡ three_digits n
print_three-digits n h = elim (Bool-cases (ltb n 10)) [
  | inl e ↦
      let hundreds : n / 100 ≡ 0 = ground arith in
      let tens : n / 10 % 10 ≡ 0 = ground arith in
      let ones : n % 10 ≡ n = ground arith in rw (e, hundreds, tens, ones) refl
  | inr e ↦ elim (Bool-cases (ltb n 100)) [
    | inl d ↦
        let hundreds : n / 100 ≡ 0 = ground arith in
        let tens : n / 10 % 10 ≡ n / 10 = ground arith in
        rw (e, d, hundreds, tens)
          (ap (λ (t : Text). b'0' ∷ t) (print_decimal-two n (ground arith) (ground arith)))
    | inr d ↦ rw (e, d) (print_decimal-three n (ground arith) h)
  ]
]

pub digit_char : (d : ℕ) → d < 10 → is_ascii_digit (b'0' + d) ≡ true
digit_char d h = ground arith

two_taken :
    (n : ℕ) (t : Text)
    → n < 100
    → take_digits 3 (two_digits n ++ b':' ∷ t) ≡ (two_digits n, b':' ∷ t)
unfolding take_digits
two_taken n t h = rw (digit_char (n / 10) (omega arith), digit_char (n % 10) (omega arith)) refl

pub take_two :
    (n : ℕ) (t : Text)
    → n < 100
    → some_digits (two_digits n ++ b':' ∷ t) ≡ some (two_digits n, b':' ∷ t)
unfolding some_digits
take_two n t h = ap found_digits (two_taken n t h)

three_taken :
    (n : ℕ) (t : Text) → n < 1000 → take_digits 3 (three_digits n ++ t) ≡ (three_digits n, t)
unfolding take_digits
three_taken n t h =
    rw
      (
        digit_char (n / 100) (omega arith),
        digit_char (n / 10 % 10) (omega arith),
        digit_char (n % 10) (omega arith),
      )
      refl

pub take_three :
    (n : ℕ) (t : Text) → n < 1000 → some_digits (three_digits n ++ t) ≡ some (three_digits n, t)
unfolding some_digits
take_three n t h = ap found_digits (three_taken n t h)

pub sixty_two : (n : ℕ) (t : Text) → n < 60 → sixty (two_digits n ++ t) ≡ some (two_digits n, t)
unfolding sixty
sixty_two n t h =
    let low : leb b'0' (b'0' + n / 10) ≡ true = ground arith in
    let high : leb (b'0' + n / 10) b'5' ≡ true = ground arith in
    rw (low, high, digit_char (n % 10) (omega arith)) refl

pub two_value : (n : ℕ) → n < 100 → digits_value (two_digits n) 0 ≡ n
two_value n h = omega arith

pub three_value : (n : ℕ) → n < 1000 → digits_value (three_digits n) 0 ≡ n
three_value n h = omega arith
