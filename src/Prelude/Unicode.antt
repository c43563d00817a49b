-- ===== src/Prelude/Unicode.antt =====
-- What the program takes from Go's packages unicode and strings. White space and control characters
-- are written out; lower case, letters and digits beyond ASCII are a parameter.
use moan_subs.Prelude.Tests.{leb, ◌==◌, if◌then◌else◌}
use moan_subs.Prelude.Text.{Text}
use Prim.Native.Nat.{ℕ, ◌+◌, ◌≤◌, ◌<◌}
use mathlib.Core.Bool.{Bool, ◌&&◌, ◌||◌}
use mathlib.Core.List.{[], ◌∷◌}
use mathlib.Core.Logic.{◌⊎◌, inl}
use mathlib.Core.Path.{◌≡◌, refl}
use native.Mathlib.Omega.{arith}

abbrev pub lower_ascii : ℕ → ℕ
lower_ascii c = if leb b'A' c && leb c b'Z' then c + 32 else c

abbrev pub is_ascii_letter : ℕ → Bool
is_ascii_letter c = leb b'a' (lower_ascii c) && leb (lower_ascii c) b'z'

abbrev pub is_ascii_digit : ℕ → Bool
is_ascii_digit c = leb b'0' c && leb c b'9'

-- unicode.ToLower, unicode.IsLetter and unicode.IsDigit with what is relied on: they are the ASCII
-- ones below 128, and above only the Kelvin sign and the dotted capital I have an ASCII lower case.
pub record Unicode : Type 0 where
  pub to_lower : ℕ → ℕ
  pub is_letter : ℕ → Bool
  pub is_digit : ℕ → Bool
  pub lower_narrow : (c : ℕ) → c < 128 → to_lower c ≡ lower_ascii c
  pub lower_wide :
      (c : ℕ) → 128 ≤ c → (128 ≤ to_lower c) ⊎ (to_lower c ≡ b'k') ⊎ (to_lower c ≡ b'i')
  pub letter_narrow : (c : ℕ) → c < 128 → is_letter c ≡ is_ascii_letter c
  pub digit_narrow : (c : ℕ) → c < 128 → is_digit c ≡ is_ascii_digit c

pub lower_ascii_wide : (c : ℕ) → 128 ≤ c → 128 ≤ lower_ascii c
lower_ascii_wide c h = ground arith

-- Tables that know ASCII alone.
abbrev pub ascii_tables : Unicode
ascii_tables = record {
  to_lower = lower_ascii;
  is_letter = is_ascii_letter;
  is_digit = is_ascii_digit;
  lower_narrow = λ c h. refl;
  lower_wide = λ c h. inl (lower_ascii_wide c h);
  letter_narrow = λ c h. refl;
  digit_narrow = λ c h. refl;
}

pub lower_ascii_idem : (c : ℕ) → lower_ascii (lower_ascii c) ≡ lower_ascii c
lower_ascii_idem c = ground arith

-- unicode.IsSpace.
unfoldable pub is_space : ℕ → Bool
is_space c =
    (leb 9 c && leb c 13)
    || c == 32
    || c == 0x85
    || c == 0xA0
    || c == 0x1680
    || (leb 0x2000 c && leb c 0x200A)
    || c == 0x2028
    || c == 0x2029
    || c == 0x202F
    || c == 0x205F
    || c == 0x3000

-- unicode.IsControl.
unfoldable pub is_control : ℕ → Bool
is_control c = leb c 31 || (leb 127 c && leb c 159)

-- strings.TrimSpace.
unfoldable pub trim_left : Text → Text
trim_left [] = []
trim_left (c ∷ s) = if is_space c then trim_left s else c ∷ s

abbrev pub cons_unless_blank : ℕ → Text → Text
cons_unless_blank c [] = if is_space c then [] else c ∷ []
cons_unless_blank c (d ∷ s) = c ∷ d ∷ s

unfoldable pub trim_right : Text → Text
trim_right [] = []
trim_right (c ∷ s) = cons_unless_blank c (trim_right s)

unfoldable pub trim_space : Text → Text
trim_space s = trim_right (trim_left s)
