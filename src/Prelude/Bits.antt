-- ===== src/Prelude/Bits.antt =====
-- Bitwise operations at variables, from the digit recursion that the native ones stand for: the
-- law for the lowest digit, and the forms by recursion on a number of digits.
use Prim.Native.Nat.{
  ℕ, zero, suc, ◌+◌, ◌*◌, ◌/◌, ◌%◌, ◌≤◌, ◌<◌, min, bit_and, bit_xor, digits, differ,
  bit_and-bitwise, bit_xor-bitwise,
}
use mathlib.Core.Path.{◌≡◌, refl, ap, sym, ◌∙◌}
use mathlib.Core.Logic.{◌⊎◌, inl, inr}
use native.Mathlib.Omega.{arith}

module _ (z : ℕ → ℕ) (f : ℕ → ℕ → ℕ) where
  digits_of_zero : (n b : ℕ) → digits z f n 0 b ≡ z b
  digits_of_zero zero b = refl
  digits_of_zero (suc n) b = refl

  -- Any fuel from the first number on is enough.
  settled : (b a m n : ℕ) → a ≤ m → a ≤ n → digits z f n a b ≡ digits z f m a b
  settled b zero m n _ _ = digits_of_zero n b ∙ sym (digits_of_zero m b)
  settled b (suc a) zero n low _ = absurd (omega arith)
  settled b (suc a) (suc m) zero _ low = absurd (omega arith)
  settled b (suc a) (suc m) (suc n) low low' =
      let rest = settled (b / 2) (suc a / 2) m n (omega arith) (omega arith) in omega arith

  -- An operation by digits is the one on the halves, and one digit more.
  lowest_digit :
      (op : ℕ → ℕ → ℕ)
      → ((a b : ℕ) → op a b ≡ digits z f a a b)
      → ((b : ℕ) → z b ≡ z (b / 2) * 2 + f 0 (b % 2))
      → (a b : ℕ) → op a b ≡ op (a / 2) (b / 2) * 2 + f (a % 2) (b % 2)
  lowest_digit op by_digits base zero b = omega (arith, base b, by_digits 0 b, by_digits 0 (b / 2))
  lowest_digit op by_digits base (suc a) b =
      let rest = settled (b / 2) (suc a / 2) (suc a / 2) a (omega arith) (omega arith) in
      omega (arith, by_digits (suc a) b, by_digits (suc a / 2) (b / 2))

pub bit_and_step : (a b : ℕ) → bit_and a b ≡ bit_and (a / 2) (b / 2) * 2 + min (a % 2) (b % 2)
bit_and_step = lowest_digit (λ b. zero) min bit_and bit_and-bitwise (λ b. omega arith)

pub bit_xor_step : (a b : ℕ) → bit_xor a b ≡ bit_xor (a / 2) (b / 2) * 2 + differ (a % 2) (b % 2)
bit_xor_step = lowest_digit (λ b. b) differ bit_xor bit_xor-bitwise (λ b. omega arith)

-- The digit of an exclusive or is 0 exactly where the digits agree.
pub differ-digit :
    (x y : ℕ) → x < 2 → y < 2 → ((x ≡ y) × (differ x y ≡ 0)) ⊎ ((x + y ≡ 1) × (differ x y ≡ 1))
differ-digit zero zero p q = inl (refl, refl)
differ-digit zero (suc zero) p q = inr (refl, refl)
differ-digit (suc zero) zero p q = inr (refl, refl)
differ-digit (suc zero) (suc zero) p q = inl (refl, refl)
differ-digit zero (suc (suc y)) p q = absurd (omega arith)
differ-digit (suc zero) (suc (suc y)) p q = absurd (omega arith)
differ-digit (suc (suc x)) y p q = absurd (omega arith)

-- The lowest digit of an exclusive or, and the rest of it.
pub bit_xor_digit : (a b : ℕ) → bit_xor a b % 2 ≡ (a % 2 + b % 2) % 2
bit_xor_digit a b =
    omega (arith, bit_xor_step a b, differ-digit (a % 2) (b % 2) (omega arith) (omega arith))

pub bit_xor_half : (a b : ℕ) → bit_xor a b / 2 ≡ bit_xor (a / 2) (b / 2)
bit_xor_half a b =
    omega (arith, bit_xor_step a b, differ-digit (a % 2) (b % 2) (omega arith) (omega arith))

-- k ones, and the k lowest digits of a number.
abbrev pub ones : ℕ → ℕ
ones zero = 0
ones (suc k) = ones k * 2 + 1

abbrev pub low_bits : ℕ → ℕ → ℕ
low_bits zero x = 0
low_bits (suc k) x = low_bits k (x / 2) * 2 + x % 2

-- An empty mask keeps nothing.
masked_out : (x top : ℕ) → x ≤ top → bit_and x 0 ≡ 0
masked_out zero top _ = bit_and-bitwise 0 0
masked_out (suc x) zero low = absurd (omega arith)
masked_out (suc x) (suc top) low =
    let rest = masked_out (suc x / 2) top (omega arith) in omega (arith, bit_and_step (suc x) 0)

-- A mask of k ones keeps the k lowest digits.
pub bit_and-ones : (k x : ℕ) → bit_and x (ones k) ≡ low_bits k x
bit_and-ones zero x = masked_out x x (omega arith)
bit_and-ones (suc k) x =
    let half : (ones k * 2 + 1) / 2 ≡ ones k = omega arith in
    omega
      (arith, bit_and_step x (ones k * 2 + 1), ap (bit_and (x / 2)) half, bit_and-ones k (x / 2))
