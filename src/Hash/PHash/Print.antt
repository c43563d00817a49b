-- ===== src/Hash/PHash/Print.antt =====
-- hash/phash.go: ParsePHash against String, and the signed storage form.
use moan_subs.Prelude.{
  ℕ, ◌+◌, ◌-◌, ◌^◌, ◌≤◌, ◌<◌, ◌≡◌, ◌∙◌, ap, [], ◌++◌, map, replicate, some, arith, length,
  append-nil,
}
use native.Mathlib.Nat.{pow-le-pow_right}
use moan_subs.Prelude.Int.{ℤ, pos, negsuc, ◌≤ℤ◌, ◌<ℤ◌}
use moan_subs.Prelude.Result.{ok}
use moan_subs.Prelude.Text.{Text}
use moan_subs.Hash.Hex.{
  parse_digits, print_digits, length-print_digits, parse-print_digits, print-parse_digits,
  parse_digits_lt, print_digits-zero, lower_digit,
}
use moan_subs.Hash.PHash.{parse_phash, to_string, to_bigint, from_bigint}

length-to_string : (h : ℕ) → length (to_string h) ≡ 16
unfolding to_string
length-to_string h = length-print_digits 16 h []

-- A text of 16 characters that is read as digits is accepted.
parse_phash-full :
    (s : Text) {h : ℕ} → length s ≡ 16 → parse_digits s 0 ≡ some h → parse_phash s ≡ ok h
unfolding parse_phash
parse_phash-full s n e = ground arith

-- The canonical form of every 64-bit hash is read back as that hash.
pub parse_phash-to_string : (h : ℕ) → h < 2 ^ 64 → parse_phash (to_string h) ≡ ok h
unfolding to_string parse_digits
parse_phash-to_string h p =
    parse_phash-full (print_digits 16 h []) (length-print_digits 16 h [])
      (parse-print_digits 16 h 0 [] p ∙ ap some (omega arith))

-- The texts that ParsePHash accepts, with what it makes of them.
parse_phash_cases :
    (s : Text) {h : ℕ}
    → parse_phash s ≡ ok h
    → (1 ≤ length s) × (length s ≤ 16) × (parse_digits s 0 ≡ some h)
unfolding parse_phash
parse_phash_cases s p = ground arith

-- 16 digits of a value read from at most 16.
padded :
    (s : Text) {h : ℕ}
    → length s ≤ 16
    → parse_digits s 0 ≡ some h
    → to_string h ≡ replicate (16 - length s) b'0' ++ map lower_digit s
unfolding to_string
padded s {h} hi digits =
    let whole : 16 ≡ length s + (16 - length s) = omega arith in
    ap (λ (k : ℕ). print_digits k h []) whole
    ∙ print-parse_digits s (16 - length s) 0 [] digits
    ∙ print_digits-zero (16 - length s) (map lower_digit s ++ [])
    ∙ ap (◌++◌ (replicate (16 - length s) b'0')) (append-nil (map lower_digit s))

-- An accepted text has 1 to 16 characters and a value below 2^64, and the canonical form of that value is
-- the text in lower case with zeros in front, 16 characters in all.
pub to_string-parse_phash :
    (s : Text) {h : ℕ}
    → parse_phash s ≡ ok h
    → (1 ≤ length s)
      × (length s ≤ 16)
      × (h < 2 ^ 64)
      × (to_string h ≡ replicate (16 - length s) b'0' ++ map lower_digit s)
      × (length (to_string h) ≡ 16)
to_string-parse_phash s {h} p =
    let (lo, hi, digits) = parse_phash_cases s p in
    (
      lo,
      hi,
      omega (arith, parse_digits_lt s 0 digits, pow-le-pow_right {n = 16} (omega arith) hi),
      padded s hi digits,
      length-to_string h,
    )

-- The signed form of a 64-bit hash lies in the range of an int64, and the hash is read back from
-- it.
pub from_bigint-to_bigint :
    (h : ℕ)
    → h < 2 ^ 64
    → (from_bigint (to_bigint h) ≡ h)
      × (negsuc (2 ^ 63 - 1) ≤ℤ to_bigint h)
      × (to_bigint h <ℤ pos (2 ^ 63))
unfolding from_bigint to_bigint
from_bigint-to_bigint h p = ground arith

-- Every int64 is the signed form of one 64-bit hash, the one that it is read as.
pub to_bigint-from_bigint :
    (v : ℤ)
    → negsuc (2 ^ 63 - 1) ≤ℤ v
    → v <ℤ pos (2 ^ 63)
    → (from_bigint v < 2 ^ 64) × (to_bigint (from_bigint v) ≡ v)
unfolding from_bigint to_bigint
to_bigint-from_bigint v lo hi = ground arith
