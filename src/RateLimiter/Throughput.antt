-- ===== src/RateLimiter/Throughput.antt =====
-- How many calls the limiter lets through in a window of time, whatever calls are made.
use native.Mathlib.Nat.{le_trans}
use insider_one_notification.Prelude.{
  ℕ, ◌+◌, ◌-◌, ◌*◌, ◌≤◌, ◌≡◌, leb→le, Option, none, some, List, [], ◌∷◌, arith, leb, Bool-cases,
  inl, inr, if◌then◌else◌,
}
use insider_one_notification.RateLimiter.{Bucket, TokenBucketLimiter, capacity, token_bucket_script}
use insider_one_notification.RateLimiter.Refill.{holding, grown, script-holding, script-none}

-- The times of the calls do not go back, begin at `start` or later, and end at `stop` or before.
abbrev pub IsWithin : ℕ → ℕ → List ℕ → Type 0
IsWithin start stop [] = start ≤ stop
IsWithin start stop (now ∷ times) = (start ≤ now) × IsWithin now stop times

module _ (l : TokenBucketLimiter) where
  -- How many of the calls at the given times are allowed.
  unfoldable pub allowed_count : List ℕ → Option Bucket → ℕ
  allowed_count [] stored = 0
  allowed_count (now ∷ times) stored =
      let (allowed, wait, b) = token_bucket_script l now stored in
      let rest = allowed_count times (some b) in if allowed then rest + 1 else rest

  elapsed_add : (a b c : ℕ) → a ≤ b → b ≤ c → (c - a) * l.rate ≡ (b - a) * l.rate + (c - b) * l.rate
  elapsed_add a b c h k = let e : c - a ≡ (b - a) + (c - b) = omega arith in rw e (omega arith)

  IsWithin-le : (start stop : ℕ) (times : List ℕ) → IsWithin start stop times → start ≤ stop
  IsWithin-le start stop [] h = h
  IsWithin-le start stop (now ∷ times) h = le_trans h.0 (IsWithin-le now stop times h.1)

  grown-le :
      (n elapsed : ℕ)
      → (grown l n elapsed ≤ n + elapsed * l.rate) × (grown l n elapsed ≤ capacity l)
  grown-le n elapsed = ground arith

  -- A call that is allowed takes a thousand thousandths of what the bucket has grown to.
  first_counted :
      (now n since rest : ℕ) (times : List ℕ)
      → since ≤ now
      → ((m : ℕ) → allowed_count times (some (holding m now)) * 1000 ≤ m + rest)
      → allowed_count (now ∷ times) (some (holding n since)) * 1000 ≤ grown l n (now - since) + rest
  unfolding allowed_count
  first_counted now n since rest times h tail =
      let m = grown l n (now - since) in
      elim (Bool-cases (leb 1000 m)) [
        | inl enough ↦
            rw (script-holding l now n since h, enough)
              (omega (arith, leb→le _ _ enough, tail (m - 1000)))
        | inr short ↦ rw (script-holding l now n since h, short) (tail m)
      ]

  counted :
      (times : List ℕ) (n since stop : ℕ)
      → IsWithin since stop times
      → allowed_count times (some (holding n since)) * 1000 ≤ n + (stop - since) * l.rate
  counted [] n since stop h = unfold allowed_count in omega arith
  counted (now ∷ times) n since stop h =
      let tail = λ (m : ℕ). counted times m now stop h.1 in
      omega (
        arith,
        first_counted now n since ((stop - now) * l.rate) times h.0 tail,
        grown-le n (now - since),
        elapsed_add since now stop h.0 (IsWithin-le now stop times h.1),
      )

  window_counted :
      (times : List ℕ) (n since start stop : ℕ)
      → since ≤ start
      → IsWithin start stop times
      → allowed_count (start ∷ times) (some (holding n since)) * 1000
        ≤ l.burst * 1000 + (stop - start) * l.rate
  window_counted times n since start stop early h =
      let tail = λ (m : ℕ). counted times m start stop h in
      omega (
        arith,
        first_counted start n since ((stop - start) * l.rate) times early tail,
        grown-le n (start - since),
      )

  allowed_count-none :
      (start : ℕ) (times : List ℕ)
      → allowed_count (start ∷ times) none
        ≡ allowed_count (start ∷ times) (some (holding (capacity l) start))
  unfolding allowed_count
  allowed_count-none start times = rw script-none

  -- In a window that begins with the call at `start`, no more calls are allowed than the burst and
  -- what `rate` refills from `start` to `stop`: both for a bucket that holds `n` thousandths since a
  -- time not after `start`, and for the first calls ever. The times of the calls do not go back.
  pub throughput_bounded :
      (times : List ℕ) (n since start stop : ℕ)
      → since ≤ start
      → IsWithin start stop times
      → (allowed_count (start ∷ times) (some (holding n since)) * 1000
          ≤ l.burst * 1000 + (stop - start) * l.rate)
        × (allowed_count (start ∷ times) none * 1000 ≤ l.burst * 1000 + (stop - start) * l.rate)
  throughput_bounded times n since start stop early h = (
    window_counted times n since start stop early h,
    rw allowed_count-none (window_counted times (capacity l) start start stop (omega arith) h),
  )
