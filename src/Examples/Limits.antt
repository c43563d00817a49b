-- ===== src/Examples/Limits.antt =====
-- The theorem on bursts at a limiter of three requests an hour, with natural numbers for the floating-point ones.
use moan_subs.Prelude.{
  ℕ, ◌+◌, ◌-◌, ◌*◌, ◌/◌, ◌≤◌, ◌≡◌, refl, List, [], ◌∷◌, arith, true, false, ltb,
}
use moan_subs.Prelude.Text.{Text, codes}
use moan_subs.Api.Limiter.{Float64, new_rate_limiter, second}
use moan_subs.Api.Limiter.Bursts.{due, answers, spent, answers-due}

abbrev whole : Float64
whole = record {
  F = ℕ;
  of_int = λ n. n;
  plus = λ a b. a + b;
  minus = λ a b. a - b;
  times = λ a b. a * b;
  over = λ a b. a / b;
  below = ltb;
  seconds = λ d. d / second;
  nanoseconds = λ n. n;
  seconds-zero = refl;
  below-of_int = λ a b h k. refl;
  minus-of_int = λ a b h k. refl;
}

abbrev client : Text
client = codes "198.51.100.7"

abbrev neighbour : Text
neighbour = codes "198.51.100.8"

abbrev burst_of_five : List (Text × ℕ)
burst_of_five = (client, 1) ∷ (neighbour, 3) ∷ (client, 4) ∷ (client, 2) ∷ (client, 1) ∷ []

granted_in_turn : due client 3 burst_of_five ≡ true ∷ false ∷ true ∷ false ∷ []
granted_in_turn = refl

answers-due_example :
    (answers whole client 9 burst_of_five (new_rate_limiter whole 3) ≡ due client 3 burst_of_five)
    × (spent whole client 9 burst_of_five (new_rate_limiter whole 3) ≤ 3)
unfolding new_rate_limiter
answers-due_example =
    answers-due whole client 9 3 burst_of_five (new_rate_limiter whole 3) refl refl (omega arith)
      (omega arith)
