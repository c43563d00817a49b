-- ===== src/Api/Limiter.antt =====
-- internal/api/ratelimit.go: RateLimiter, a token bucket for each key. Times and durations are nanoseconds. A method
-- holds the mutex from its first line to its last, so a call is one step.
pub mod Bursts
use moan_subs.Prelude.{
  ℕ, ◌+◌, ◌-◌, ◌^◌, ◌%◌, ◌≤◌, ◌<◌, ◌≡◌, Bool, true, false, Option, none, some, ◌==◌, ltb,
  if◌then◌else◌,
}
use moan_subs.Prelude.Text.{Text, text_eq}

-- The float64 values that the limiter computes with: conversion from an int, arithmetic, <, Duration.Seconds and
-- conversion to a Duration. Integers below 2^53 are exact in IEEE 754, and so are their order and difference.
pub record Float64 : Type 1 where
  pub F : Type 0
  pub of_int : ℕ → F
  pub plus : F → F → F
  pub minus : F → F → F
  pub times : F → F → F
  pub over : F → F → F
  pub below : F → F → Bool
  pub seconds : ℕ → F
  pub nanoseconds : F → ℕ
  pub seconds-zero : seconds 0 ≡ of_int 0
  pub below-of_int : (a b : ℕ) → a < 2 ^ 53 → b < 2 ^ 53 → below (of_int a) (of_int b) ≡ ltb a b
  pub minus-of_int : (a b : ℕ) → b ≤ a → a < 2 ^ 53 → minus (of_int a) (of_int b) ≡ of_int (a - b)

abbrev pub second : ℕ
second = 1000000000

abbrev pub prune_every : ℕ
prune_every = 4096

-- bucket.
pub record Bucket (F : Type 0) : Type 0 where
  pub tokens : F
  pub last : ℕ

-- RateLimiter, with its map of buckets as a function.
pub record RateLimiter (F : Type 0) : Type 0 where
  pub buckets : Text → Option (Bucket F)
  pub rate : F
  pub burst : F
  pub calls : ℕ

module _ (float : Float64) where
  open float use {F, of_int, plus, minus, times, over, below, seconds, nanoseconds}

  unfoldable pub new_rate_limiter : ℕ → RateLimiter F
  new_rate_limiter per_hour = record {
    buckets = λ _. none;
    rate = over (of_int per_hour) (of_int 3600);
    burst = of_int per_hour;
    calls = 0;
  }

  unfoldable pub new_rate_limiter_per_minute : ℕ → RateLimiter F
  new_rate_limiter_per_minute per_minute = record {
    buckets = λ _. none;
    rate = over (of_int per_minute) (of_int 60);
    burst = of_int per_minute;
    calls = 0;
  }

  -- RateLimiter.prune.
  abbrev pub unless_idle : ℕ → ℕ → Option (Bucket F) → Option (Bucket F)
  unless_idle idle now none = none
  unless_idle idle now (some b) = if ltb idle (now - b.last) then none else some b

  unfoldable pub prune : ℕ → RateLimiter F → RateLimiter F
  prune now l =
      let idle = nanoseconds (times (over l.burst l.rate) (of_int second)) + second in
      record l { buckets = λ k. unless_idle idle now (l.buckets k) }

  -- The count of the calls in AllowN, with its sweep.
  unfoldable pub counted : ℕ → RateLimiter F → RateLimiter F
  counted now l =
      let calls = l.calls + 1 in
      let l1 = record l { calls = calls } in if calls % prune_every == 0 then prune now l1 else l1

  abbrev pub bucket_or_full : RateLimiter F → ℕ → Option (Bucket F) → Bucket F
  bucket_or_full l now none = record { tokens = l.burst; last = now }
  bucket_or_full l now (some b) = b

  -- The refill in AllowN and in RetryAfterN; a clock that stands still or went back refills nothing.
  abbrev pub capped : F → F → F
  capped burst tokens = if below burst tokens then burst else tokens

  unfoldable pub refilled : RateLimiter F → ℕ → Bucket F → Bucket F
  refilled l now b =
      let elapsed = seconds (now - b.last) in
      if below (of_int 0) elapsed
      then record { tokens = capped l.burst (plus b.tokens (times elapsed l.rate)); last = now }
      else b

  abbrev pub put_bucket : Text → Bucket F → RateLimiter F → RateLimiter F
  put_bucket key b l = record l { buckets = λ k. if text_eq key k then some b else l.buckets k }

  unfoldable pub charge : Text → ℕ → ℕ → RateLimiter F → RateLimiter F × Bool
  charge key n now l =
      let b = refilled l now (bucket_or_full l now (l.buckets key)) in
      if below b.tokens (of_int n)
      then (put_bucket key b l, false)
      else (put_bucket key (record b { tokens = minus b.tokens (of_int n) }) l, true)

  -- RateLimiter.AllowN.
  unfoldable pub allow_n : Text → ℕ → ℕ → RateLimiter F → RateLimiter F × Bool
  allow_n key n now l = charge key n now (counted now l)
