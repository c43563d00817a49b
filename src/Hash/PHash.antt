-- ===== src/Hash/PHash.antt =====
-- hash/phash.go: the 64-bit perceptual hash. A PHash is the number of its bit pattern, below
-- 2^64, and text is the list of its bytes.
pub mod Sharing
pub mod Distance
pub mod Print
use Prim.Native.Nat.{bit_and, bit_xor}
use moan_subs.Prelude.{
  ℕ, zero, suc, ◌+◌, ◌-◌, ◌/◌, ◌%◌, ◌^◌, ◌≡◌, refl, [], ◌||◌, Option, none, some, ltb, ◌==◌,
  if◌then◌else◌, length,
}
use moan_subs.Prelude.Int.{ℤ, pos, negsuc}
use moan_subs.Prelude.Result.{Result, ok, err}
use moan_subs.Prelude.Text.{Text, codes}
use moan_subs.Hash.Hex.{parse_digits, print_digits}

pub data PHashError : Type 0 where
  wrong_length not_hex : PHashError

-- ParsePHash: 1 to 16 digits, with no left padding needed.
unfoldable pub parse_phash : Text → Result PHashError ℕ
unfolding parse_digits
parse_phash s =
    if length s == 0 || ltb 16 (length s)
    then err wrong_length
    else elim (parse_digits s 0) [ none ↦ err not_hex | some v ↦ ok v ]

-- PHash.String, "%016x".
unfoldable pub to_string : ℕ → Text
unfolding print_digits
to_string h = print_digits 16 h []

-- int64(uint64(h)) reads the same 64 bits as a signed number.
unfoldable pub to_bigint : ℕ → ℤ
to_bigint h = if ltb h (2 ^ 63) then pos h else negsuc (2 ^ 64 - h - 1)

-- uint64(v).
unfoldable pub from_bigint : ℤ → ℕ
from_bigint (pos n) = n % 2 ^ 64
from_bigint (negsuc n) = (2 ^ 64 - (n + 1) % 2 ^ 64) % 2 ^ 64

-- The one bits among the k lowest; bits.OnesCount64 takes all 64.
unfoldable pub ones_count : ℕ → ℕ → ℕ
ones_count zero x = 0
ones_count (suc k) x = x % 2 + ones_count k (x / 2)

unfoldable pub hamming : ℕ → ℕ → ℕ
hamming a b = ones_count 64 (bit_xor a b)

pub record Blocks : Type 0 where
  pub b0 : ℕ
  pub b1 : ℕ
  pub b2 : ℕ
  pub b3 : ℕ
  pub b4 : ℕ

-- The shifts, the masks and the width of a block value.
abbrev pub block0_shift : ℕ
block0_shift = 51

abbrev pub block1_shift : ℕ
block1_shift = 38

abbrev pub block2_shift : ℕ
block2_shift = 25

abbrev pub block3_shift : ℕ
block3_shift = 12

abbrev pub block13_mask : ℕ
block13_mask = 0x1FFF

abbrev pub block4_mask : ℕ
block4_mask = 0xFFF

abbrev pub u16 : ℕ → ℕ
u16 x = x % 2 ^ 16

-- PHash.Blocks, by shift and mask.
unfoldable pub blocks : ℕ → Blocks
blocks v = record {
  b0 = u16 (bit_and (v / 2 ^ block0_shift) block13_mask);
  b1 = u16 (bit_and (v / 2 ^ block1_shift) block13_mask);
  b2 = u16 (bit_and (v / 2 ^ block2_shift) block13_mask);
  b3 = u16 (bit_and (v / 2 ^ block3_shift) block13_mask);
  b4 = u16 (bit_and v block4_mask);
}

unpadded : parse_phash (codes "1f") ≡ ok 31
unfolding parse_phash moan_subs.Hash.Hex.digit_value
unpadded = refl
