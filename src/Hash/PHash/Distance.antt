-- ===== src/Hash/PHash/Distance.antt =====
-- hash/phash.go: Hamming is a distance on 64-bit hashes, and the blocks determine the hash.
use Prim.Native.Nat.{bit_xor}
use moan_subs.Prelude.{ℕ, zero, suc, ◌+◌, ◌/◌, ◌^◌, ◌≤◌, ◌<◌, ◌≡◌, refl, sym, ap, ◌∙◌, ◌↔◌, arith}
use native.Mathlib.Nat.{pow-suc}
use moan_subs.Prelude.Bits.{bit_xor_half, bit_xor_digit}
use moan_subs.Hash.PHash.{hamming, ones_count}

ones_count-half :
    (k x y : ℕ) → ones_count k (bit_xor x y / 2) ≡ ones_count k (bit_xor (x / 2) (y / 2))
ones_count-half k x y = ap (ones_count k) (bit_xor_half x y)

count_comm : (k a b : ℕ) → ones_count k (bit_xor a b) ≡ ones_count k (bit_xor b a)
unfolding ones_count
count_comm zero a b = refl
count_comm (suc k) a b = omega (
  arith,
  bit_xor_digit a b,
  bit_xor_digit b a,
  ones_count-half k a b,
  ones_count-half k b a,
  count_comm k (a / 2) (b / 2),
)

count_triangle :
    (k a b c : ℕ)
    → ones_count k (bit_xor a c) ≤ ones_count k (bit_xor a b) + ones_count k (bit_xor b c)
unfolding ones_count
count_triangle zero a b c = omega arith
count_triangle (suc k) a b c = omega (
  arith,
  bit_xor_digit a b,
  bit_xor_digit b c,
  bit_xor_digit a c,
  ones_count-half k a b,
  ones_count-half k b c,
  ones_count-half k a c,
  count_triangle k (a / 2) (b / 2) (c / 2),
)

count_self : (k a : ℕ) → ones_count k (bit_xor a a) ≡ 0
unfolding ones_count
count_self zero a = refl
count_self (suc k) a = omega (arith, bit_xor_digit a a, ones_count-half k a a, count_self k (a / 2))

count_zero : (k a b : ℕ) → a < 2 ^ k → b < 2 ^ k → ones_count k (bit_xor a b) ≡ 0 → a ≡ b
unfolding ones_count
count_zero zero a b p q h = omega arith
count_zero (suc k) a b p q h =
    let agree : ones_count k (bit_xor (a / 2) (b / 2)) ≡ 0 = omega (arith, ones_count-half k a b) in
    omega (
      arith,
      bit_xor_digit a b,
      count_zero k (a / 2) (b / 2) (omega (arith, pow-suc 2 k)) (omega (arith, pow-suc 2 k)) agree,
    )

-- Hamming is symmetric, obeys the triangle inequality, and is 0 exactly for equal 64-bit hashes.
pub hamming_distance :
    (a b c : ℕ)
    → a < 2 ^ 64
    → b < 2 ^ 64
    → (hamming a b ≡ hamming b a)
      × (hamming a c ≤ hamming a b + hamming b c)
      × ((hamming a b ≡ 0) ↔ (a ≡ b))
unfolding hamming
hamming_distance a b c p q = (
  count_comm 64 a b,
  count_triangle 64 a b c,
  (
    count_zero 64 a b p q,
    λ e. ap (λ (t : ℕ). ones_count 64 (bit_xor a t)) (sym e) ∙ count_self 64 a,
  ),
)
