-- ===== src/Prelude/Text.antt =====
-- Text as a list of code points, and the tables of Unicode that the program asks. White space and
-- control characters are written out; letters, digits and lower case beyond ASCII are a parameter.
use Prim.Native.Char.{code}
use Prim.Native.String.{String}
use Prim.Native.Nat.{ℕ}
use mathlib.Core.Bool.{Bool, true, false}
use mathlib.Core.List.{List, [], ◌∷◌}
use mathlib.Core.Path.{◌≡◌, refl}
use native.Mathlib.Omega.{arith}
use moan_subs.Prelude.Tests.{◌==◌, if◌then◌else◌}

abbrev pub Text : Type 0
Text = List ℕ

-- A literal's code points.
abbrev pub codes : String → Text
codes String.[] = []
codes (String.◌∷◌ c s) = code c ∷ codes s

abbrev pub text_eq : Text → Text → Bool
text_eq [] [] = true
text_eq [] (d ∷ t) = false
text_eq (c ∷ s) [] = false
text_eq (c ∷ s) (d ∷ t) = if c == d then text_eq s t else false

pub text_eq_refl : (s : Text) → text_eq s s ≡ true
text_eq_refl [] = refl
text_eq_refl (c ∷ s) = ground (arith, text_eq_refl s)

pub eq-text_eq : (s t : Text) → text_eq s t ≡ true → s ≡ t
eq-text_eq [] [] h = refl
eq-text_eq [] (d ∷ t) h = ground arith
eq-text_eq (c ∷ s) [] h = ground arith
eq-text_eq (c ∷ s) (d ∷ t) h = ground (arith, eq-text_eq s t)
