-- ===== src/Hash/PHash/Sharing.antt =====
-- hash/phash.go: how many of the five blocks of two hashes can differ. The blocks are disjoint runs
-- of the 64 bits, so each block that differs takes at least one differing bit.
use Prim.Native.Nat.{bit_and, bit_xor}
use native.Mathlib.Nat.{div-div-eq-div-mul, pow-succ'}
use moan_subs.Prelude.{
  ℕ, zero, suc, ◌+◌, ◌/◌, ◌^◌, ◌≤◌, ◌≡◌, refl, sym, ap, ◌∙◌, ◌⊎◌, arith, ◌==◌, if◌then◌else◌,
}
use moan_subs.Prelude.Bits.{bit_xor_half, bit_xor_digit, bit_and-ones, low_bits, ones}
use moan_subs.Hash.PHash.{Blocks, blocks, hamming, ones_count, u16}

shift_suc : (j x : ℕ) → x / 2 ^ suc j ≡ x / 2 / 2 ^ j
shift_suc j x = ap (λ (t : ℕ). x / t) (pow-succ' 2 j) ∙ sym (div-div-eq-div-mul x 2 (2 ^ j))

-- The one bits of j + k digits are those of the j lowest and of the k above them.
ones_count-add : (j k x : ℕ) → ones_count (j + k) x ≡ ones_count j x + ones_count k (x / 2 ^ j)
unfolding ones_count
ones_count-add zero k x =
    let none_below : 0 + k ≡ k = omega arith in
    let unshifted : x / 2 ^ 0 ≡ x = omega arith in rw (none_below, unshifted) (omega arith)
ones_count-add (suc j) k x =
    let one_below : suc j + k ≡ suc (j + k) = omega arith in
    rw (one_below, shift_suc j x) (omega (arith, ones_count-add j k (x / 2)))

xor-shift : (j a b : ℕ) → bit_xor a b / 2 ^ j ≡ bit_xor (a / 2 ^ j) (b / 2 ^ j)
xor-shift zero a b = let unshifted : (x : ℕ) → x / 1 ≡ x = λ x. omega arith in simp unshifted
xor-shift (suc j) a b =
    rw (shift_suc j (bit_xor a b), shift_suc j a, shift_suc j b, bit_xor_half a b)
      (xor-shift j (a / 2) (b / 2))

-- Numbers with no differing bit among the k lowest agree on these.
low_bits-eq : (k a b : ℕ) → ones_count k (bit_xor a b) ≡ 0 → low_bits k a ≡ low_bits k b
unfolding ones_count
low_bits-eq zero a b h = refl
low_bits-eq (suc k) a b h = omega (
  arith,
  bit_xor_digit a b,
  low_bits-eq k (a / 2) (b / 2) (ap (ones_count k) (sym (bit_xor_half a b)) ∙ omega arith),
)

-- A run of k bits, masked, is the same for numbers that differ nowhere in it; so too shifted down.
masked-eq :
    (k a b : ℕ)
    → ones_count k (bit_xor a b) ≡ 0
    → u16 (bit_and a (ones k)) ≡ u16 (bit_and b (ones k))
masked-eq k a b h = ap u16 (bit_and-ones k a ∙ low_bits-eq k a b h ∙ sym (bit_and-ones k b))

shifted-eq :
    (k s a b : ℕ)
    → ones_count k (bit_xor a b / 2 ^ s) ≡ 0
    → u16 (bit_and (a / 2 ^ s) (ones k)) ≡ u16 (bit_and (b / 2 ^ s) (ones k))
shifted-eq k s a b h =
    masked-eq k (a / 2 ^ s) (b / 2 ^ s) (ap (ones_count k) (sym (xor-shift s a b)) ∙ h)

-- The differing bits of two hashes, block by block.
hamming-split :
    (a b : ℕ)
    → let x = bit_xor a b in
      hamming a b
      ≡ ones_count 12 x
        + ones_count 13 (x / 2 ^ 12)
        + ones_count 13 (x / 2 ^ 25)
        + ones_count 13 (x / 2 ^ 38)
        + ones_count 13 (x / 2 ^ 51)
unfolding hamming
hamming-split a b =
    let x = bit_xor a b in
    omega (
      arith,
      ones_count-add 12 52 x,
      ones_count-add 13 39 (x / 2 ^ 12),
      ap (ones_count 39) (div-div-eq-div-mul x (2 ^ 12) (2 ^ 13)),
      ones_count-add 13 26 (x / 2 ^ 25),
      ap (ones_count 26) (div-div-eq-div-mul x (2 ^ 25) (2 ^ 13)),
      ones_count-add 13 13 (x / 2 ^ 38),
      ap (ones_count 13) (div-div-eq-div-mul x (2 ^ 38) (2 ^ 13)),
    )

-- How many blocks of two hashes differ.
abbrev pub unequal : ℕ → ℕ → ℕ
unequal x y = if x == y then 0 else 1

abbrev pub blocks_apart : Blocks → Blocks → ℕ
blocks_apart p q =
    unequal p.b0 q.b0
    + unequal p.b1 q.b1
    + unequal p.b2 q.b2
    + unequal p.b3 q.b3
    + unequal p.b4 q.b4

unequal-le : (x y n : ℕ) → (n ≡ 0 → x ≡ y) → unequal x y ≤ n
unequal-le x y zero h = ground (arith, h refl)
unequal-le x y (suc n) h = ground arith

-- Hashes have no more blocks apart than bits.
blocks_apart-le : (a b : ℕ) → blocks_apart (blocks a) (blocks b) ≤ hamming a b
unfolding blocks
blocks_apart-le a b =
    let x = bit_xor a b in
    omega (
      arith,
      hamming-split a b,
      unequal-le _ _ (ones_count 13 (x / 2 ^ 51)) (shifted-eq 13 51 a b),
      unequal-le _ _ (ones_count 13 (x / 2 ^ 38)) (shifted-eq 13 38 a b),
      unequal-le _ _ (ones_count 13 (x / 2 ^ 25)) (shifted-eq 13 25 a b),
      unequal-le _ _ (ones_count 13 (x / 2 ^ 12)) (shifted-eq 13 12 a b),
      unequal-le _ _ (ones_count 12 x) (masked-eq 12 a b),
    )

-- Two hashes within Hamming distance 4 have at least one of their five blocks in common.
pub shared_block :
    (a b : ℕ)
    → hamming a b ≤ 4
    → let p = blocks a in
      let q = blocks b in
      (p.b0 ≡ q.b0) ⊎ (p.b1 ≡ q.b1) ⊎ (p.b2 ≡ q.b2) ⊎ (p.b3 ≡ q.b3) ⊎ (p.b4 ≡ q.b4)
shared_block a b h = ground (arith, blocks_apart-le a b)
