-- ===== src/Api/Limiter/Bursts.antt =====
-- internal/api/ratelimit.go: what a limiter gives a key in a burst of requests.
use moan_subs.Prelude.{
  ℕ, ◌+◌, ◌-◌, ◌%◌, ◌^◌, ◌≤◌, ◌<◌, ◌≡◌, ◌⊎◌, refl, sym, ◌∙◌, ap, subst, Bool, true, false, ◌&&◌,
  List, [], ◌∷◌, none, some, arith, ◌==◌, ltb, leb, if◌then◌else◌, All, Bool-cases, inl, inr,
}
use moan_subs.Prelude.Text.{Text, text_eq, text_eq_refl, eq-text_eq}
use moan_subs.Api.Limiter.{
  Float64, Bucket, RateLimiter, prune_every, unless_idle, prune, counted, bucket_or_full, refilled,
  put_bucket, charge, allow_n,
}

-- The answers that are due for a key with so many tokens left: a request is granted if they are enough.
abbrev pub due : Text → ℕ → List (Text × ℕ) → List Bool
due key left [] = []
due key left ((k, n) ∷ qs) =
    let granted = true ∷ due key (left - n) qs in
    let refused = false ∷ due key left qs in
    let other = due key left qs in
    if text_eq k key then (if leb n left then granted else refused) else other

module _ (float : Float64) (key : Text) (now : ℕ) where
  open float use {F, of_int, minus, below, below-of_int, minus-of_int, seconds-zero}

  -- The answers of AllowN to the requests for the key, and the tokens that it grants them.
  unfoldable pub answers : List (Text × ℕ) → RateLimiter F → List Bool
  answers [] l = []
  answers ((k, n) ∷ qs) l =
      let (l', permitted) = allow_n float k n now l in
      let rest = answers qs l' in if text_eq k key then permitted ∷ rest else rest

  unfoldable pub spent : List (Text × ℕ) → RateLimiter F → ℕ
  spent [] l = 0
  spent ((k, n) ∷ qs) l =
      let (l', permitted) = allow_n float k n now l in
      (if text_eq k key && permitted then n else 0) + spent qs l'

  abbrev at_now : ℕ → Bucket F
  at_now left = record { tokens = of_int left; last = now }

  -- The key has so many tokens left of its budget.
  abbrev HasLeft : ℕ → ℕ → RateLimiter F → Type 0
  HasLeft budget left l =
      (l.burst ≡ of_int budget)
      × (((l.buckets key ≡ none) × (left ≡ budget)) ⊎ (l.buckets key ≡ some (at_now left)))

  spared : (idle left : ℕ) → unless_idle float idle now (some (at_now left)) ≡ some (at_now left)
  spared idle left = ground arith

  counted-HasLeft :
      (budget left : ℕ) (l : RateLimiter F)
      → HasLeft budget left l
      → HasLeft budget left (counted float now l)
  unfolding counted prune
  counted-HasLeft budget left l (size, inl (absent, full)) =
      elim (Bool-cases ((l.calls + 1) % prune_every == 0)) [
        | inl e ↦ rw e (size, inl (rw absent refl, full))
        | inr e ↦ rw e (size, inl (absent, full))
      ]
  counted-HasLeft budget left l (size, inr held) =
      elim (Bool-cases ((l.calls + 1) % prune_every == 0)) [
        | inl e ↦ rw e (size, inr (rw held (spared _ left)))
        | inr e ↦ rw e (size, inr held)
      ]

  stands_still :
      (l : RateLimiter F) (tokens : F)
      → refilled float l now (record { tokens = tokens; last = now })
        ≡ record { tokens = tokens; last = now }
  unfolding refilled
  stands_still l tokens =
      let none_passed : now - now ≡ 0 = omega arith in
      rw (none_passed, seconds-zero, below-of_int 0 0 (omega arith) (omega arith)) refl

  -- The bucket that a request at that time is charged to: nothing is refilled.
  charged :
      (budget left : ℕ) (l : RateLimiter F)
      → HasLeft budget left l
      → refilled float l now (bucket_or_full float l now (l.buckets key)) ≡ at_now left
  charged budget left l (size, inl (absent, full)) = rw absent (
      stands_still l l.burst
      ∙ ap (λ (t : F). record { tokens = t; last = now }) (size ∙ ap of_int (sym full)))
  charged budget left l (size, inr held) = rw held (stands_still l (of_int left))

  abbrev after : ℕ → ℕ → ℕ
  after left n = if leb n left then left - n else left

  own_charge :
      (budget left n : ℕ) (l : RateLimiter F)
      → HasLeft budget left l
      → left < 2 ^ 53
      → n < 2 ^ 53
      → ((charge float key n now l).1 ≡ leb n left)
        × HasLeft budget (after left n) (charge float key n now l).0
  unfolding charge
  own_charge budget left n l (size, state) small small_n =
      let test = below-of_int left n small small_n in
      elim (Bool-cases (leb n left)) [
        | inl e ↦
            let enough : ltb left n ≡ false = ground arith in
            rw (charged budget left l (size, state), test, enough, e)
              (
                refl,
                (size, inr (rw (text_eq_refl key, minus-of_int left n (ground arith) small) refl)),
              )
        | inr e ↦
            let short : ltb left n ≡ true = ground arith in
            rw (charged budget left l (size, state), test, short, e)
              (refl, (size, inr (rw (text_eq_refl key) refl)))
      ]

  put_elsewhere :
      (budget left : ℕ) (k : Text) (b : Bucket F) (l : RateLimiter F)
      → text_eq k key ≡ false
      → HasLeft budget left l
      → HasLeft budget left (put_bucket float k b l)
  put_elsewhere budget left k b l e (size, inl (absent, full)) = (size, inl (rw e absent, full))
  put_elsewhere budget left k b l e (size, inr held) = (size, inr (rw e held))

  other_charge :
      (budget left n : ℕ) (k : Text) (l : RateLimiter F)
      → text_eq k key ≡ false
      → HasLeft budget left l
      → HasLeft budget left (charge float k n now l).0
  unfolding charge
  other_charge budget left n k l e h =
      let b = refilled float l now (bucket_or_full float l now (l.buckets k)) in
      elim (Bool-cases (below b.tokens (of_int n))) [
        | inl short ↦ rw short (put_elsewhere budget left k b l e h)
        | inr enough ↦
            rw enough
              (put_elsewhere budget left k (record b { tokens = minus b.tokens (of_int n) }) l e h)
      ]

  -- The answers are those that are due, and what is granted was left.
  abbrev Served : ℕ → List (Text × ℕ) → RateLimiter F → Type 0
  Served left qs l = (answers qs l ≡ due key left qs) × (spent qs l ≤ left)

  own_request :
      (left n : ℕ) (qs : List (Text × ℕ)) (l : RateLimiter F)
      → (allow_n float key n now l).1 ≡ leb n left
      → Served (after left n) qs (allow_n float key n now l).0
      → Served left ((key, n) ∷ qs) l
  unfolding answers spent
  own_request left n qs l permitted (same, most) = elim (Bool-cases (leb n left)) [
    | inl e ↦
        rw (text_eq_refl key, permitted, e)
          (ap (λ (bs : List Bool). true ∷ bs) (rw e at same), ground (arith, rw e at most))
    | inr e ↦
        rw (text_eq_refl key, permitted, e)
          (ap (λ (bs : List Bool). false ∷ bs) (rw e at same), ground (arith, rw e at most))
  ]

  served :
      (budget left : ℕ) (qs : List (Text × ℕ)) (l : RateLimiter F)
      → HasLeft budget left l
      → left < 2 ^ 53
      → All (λ (q : Text × ℕ). q.1 < 2 ^ 53) qs
      → Served left qs l
  unfolding answers spent allow_n
  served budget left [] l h small all_small = (refl, omega arith)
  served budget left ((k, n) ∷ qs) l h small (small_n, rest) =
      let swept = counted-HasLeft budget left l h in
      elim (Bool-cases (text_eq k key)) [
        | inl e ↦
            let (permitted, next) =
              own_charge budget left n (counted float now l) swept small small_n in
            subst (λ (j : Text). Served left ((j, n) ∷ qs) l) (sym (eq-text_eq k key e))
              (own_request left n qs l permitted (
                served budget (after left n) qs (allow_n float key n now l).0 next
                  (ground (arith, small)) rest))
        | inr e ↦
            let next = other_charge budget left n k (counted float now l) e swept in
            let (same, most) = served budget left qs (allow_n float k n now l).0 next small rest in
            rw e (same, ground (arith, most))
      ]

  -- In a burst, which is a sequence of requests at one time by the clock, of any keys and with the sweeps that
  -- come between, a key that has no bucket is granted each request exactly if its budget holds the tokens that
  -- this takes besides those granted before, and so in all no more than the budget. Budget and requests are below
  -- 2^53.
  pub answers-due :
      (budget : ℕ) (qs : List (Text × ℕ)) (l : RateLimiter F)
      → l.burst ≡ of_int budget
      → l.buckets key ≡ none
      → budget < 2 ^ 53
      → All (λ (q : Text × ℕ). q.1 < 2 ^ 53) qs
      → (answers qs l ≡ due key budget qs) × (spent qs l ≤ budget)
  answers-due budget qs l size absent small all_small =
      served budget budget qs l (size, inl (absent, refl)) small all_small
