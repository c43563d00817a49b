-- ===== src/Hash/Hex.antt =====
-- Hexadecimal text: what hash/phash.go takes from strconv.ParseUint(s, 16, 64) and the verb %016x,
-- with the digits of both.
use moan_subs.Prelude.{
  ℕ, zero, suc, ◌+◌, ◌-◌, ◌*◌, ◌/◌, ◌%◌, ◌^◌, ◌≤◌, ◌<◌, ◌≡◌, refl, ap, ◌∙◌, inl, inr, ◌&&◌, [], ◌∷◌,
  ◌++◌, Option, none, some, arith, ltb, leb, if◌then◌else◌, length, Option-cases, map, replicate,
}
use native.Mathlib.Nat.{pow-suc, mul_assoc}
use moan_subs.Prelude.Text.{Text}

-- The value of a digit of either case.
unfoldable pub digit_value : ℕ → Option ℕ
digit_value c =
    if leb b'0' c && leb c b'9'
    then some (c - b'0')
    else if leb b'a' c && leb c b'f'
    then some (c - 87)
    else if leb b'A' c && leb c b'F'
    then some (c - 55)
    else none

-- The digit of a value below 16, in lower case.
unfoldable pub digit : ℕ → ℕ
digit d = if ltb d 10 then b'0' + d else 87 + d

-- strconv.ParseUint in base 16 on at most 16 digits, where it cannot overflow; the accumulator is
-- the number read so far.
unfoldable pub parse_digits : Text → ℕ → Option ℕ
parse_digits [] n = some n
parse_digits (c ∷ s) n = elim (digit_value c) [ none ↦ none | some d ↦ parse_digits s (n * 16 + d) ]

-- The k lowest digits of a number, highest first.
unfoldable pub print_digits : ℕ → ℕ → Text → Text
print_digits zero n out = out
print_digits (suc k) n out = print_digits k (n / 16) (digit (n % 16) ∷ out)

-- k digits make a text of k more.
pub length-print_digits : (k n : ℕ) (out : Text) → length (print_digits k n out) ≡ k + length out
unfolding print_digits
length-print_digits zero n out = omega arith
length-print_digits (suc k) n out =
    omega (arith, length-print_digits k (n / 16) (digit (n % 16) ∷ out))

pub digit_value-digit : (d : ℕ) → d < 16 → digit_value (digit d) ≡ some d
unfolding digit_value digit
digit_value-digit d h = ground arith

pub digit_value_lt : (c : ℕ) {d : ℕ} → digit_value c ≡ some d → d < 16
unfolding digit_value
digit_value_lt c h = ground arith

-- Reading k digits of n behind m gives m * 16^k + n, for a number of at most k digits.
pub parse-print_digits :
    (k n m : ℕ) (out : Text)
    → n < 16 ^ k
    → parse_digits (print_digits k n out) m ≡ parse_digits out (m * 16 ^ k + n)
unfolding print_digits parse_digits
parse-print_digits zero n m out h = ap (parse_digits out) (omega arith)
parse-print_digits (suc k) n m out h =
    parse-print_digits k (n / 16) m (digit (n % 16) ∷ out) (omega (arith, pow-suc 16 k))
    ∙ rw (parse_digits, digit_value-digit (n % 16) (omega arith))
        (ap (parse_digits out)
          (omega (arith, ap (λ (t : ℕ). m * t) (pow-suc 16 k), mul_assoc m (16 ^ k) 16)))

-- A digit in lower case.
unfoldable pub lower_digit : ℕ → ℕ
lower_digit c = if leb b'A' c && leb c b'Z' then c + 32 else c

pub digit-digit_value : (c : ℕ) {d : ℕ} → digit_value c ≡ some d → digit d ≡ lower_digit c
unfolding digit_value digit lower_digit
digit-digit_value c h = ground arith

-- A text that is read has a digit first.
parse_digits-cons :
    (c : ℕ) (s : Text) (m : ℕ) {v : ℕ}
    → parse_digits (c ∷ s) m ≡ some v
    → (d : ℕ) × (digit_value c ≡ some d) × (parse_digits s (m * 16 + d) ≡ some v)
unfolding parse_digits
parse_digits-cons c s m h = elim (Option-cases (digit_value c)) [
  | inl e ↦ absurd (cc (rw (e, parse_digits) at h))
  | inr (d, e) ↦ (d, e, rw (e, parse_digits) at h)
]

print_digits_step :
    (j m d : ℕ) (out : Text)
    → d < 16
    → print_digits (suc j) (m * 16 + d) out ≡ print_digits j m (digit d ∷ out)
unfolding print_digits
print_digits_step j m d out h =
    let quotient : (m * 16 + d) / 16 ≡ m = omega arith in
    let remainder : (m * 16 + d) % 16 ≡ d = omega arith in rw (quotient, remainder)

scale_le : (m d p : ℕ) → d < 16 → (m * 16 + d + 1) * p ≤ (m + 1) * (p * 16)
scale_le m d p h = grind arith

-- What was read is printed behind the digits of what stood before it.
pub print-parse_digits :
    (s : Text) (j m : ℕ) (out : Text) {v : ℕ}
    → parse_digits s m ≡ some v
    → print_digits (length s + j) v out ≡ print_digits j m (map lower_digit s ++ out)
unfolding parse_digits
print-parse_digits [] j m out {v} h = ground arith
print-parse_digits (c ∷ s) j m out {v} h =
    let (d, e, rest) = parse_digits-cons c s m h in
    ap (λ (k : ℕ). print_digits k v out) (omega arith)
    ∙ print-parse_digits s (suc j) (m * 16 + d) out rest
    ∙ print_digits_step j m d _ (digit_value_lt c e)
    ∙ ap (λ (x : ℕ). print_digits j m (x ∷ (map lower_digit s ++ out))) (digit-digit_value c e)

-- A number read from k digits is below 16^k.
pub parse_digits_lt :
    (s : Text) (m : ℕ) {v : ℕ} → parse_digits s m ≡ some v → v < (m + 1) * 16 ^ length s
unfolding parse_digits
parse_digits_lt [] m {v} h = ground arith
parse_digits_lt (c ∷ s) m {v} h =
    let (d, e, rest) = parse_digits-cons c s m h in
    omega (
      arith,
      parse_digits_lt s (m * 16 + d) rest,
      scale_le m d (16 ^ length s) (digit_value_lt c e),
      ap (λ (t : ℕ). (m + 1) * t) (pow-suc 16 (length s)),
    )

replicate-snoc : (k c : ℕ) (out : Text) → replicate k c ++ (c ∷ out) ≡ c ∷ (replicate k c ++ out)
replicate-snoc zero c out = refl
replicate-snoc (suc k) c out = ap (◌∷◌ c) (replicate-snoc k c out)

pub print_digits-zero : (k : ℕ) (out : Text) → print_digits k 0 out ≡ replicate k b'0' ++ out
unfolding print_digits digit
print_digits-zero zero out = refl
print_digits-zero (suc k) out = print_digits-zero k (b'0' ∷ out) ∙ replicate-snoc k b'0' out
