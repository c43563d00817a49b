-- ===== src/Prelude/Decimal.antt =====
-- The verb %d of package fmt.
use Prim.Native.Nat.{ℕ, zero, suc, ◌+◌, ◌/◌, ◌%◌}
use mathlib.Core.List.{◌∷◌}
use moan_subs.Prelude.Tests.{ltb, if◌then◌else◌}
use moan_subs.Prelude.Text.{Text}

-- The digits of %d, highest first; n digits are printed at most.
unfoldable pub print_decimal : ℕ → ℕ → Text → Text
print_decimal zero v out = out
print_decimal (suc n) v out =
    if ltb v 10 then (b'0' + v) ∷ out else print_decimal n (v / 10) ((b'0' + v % 10) ∷ out)
