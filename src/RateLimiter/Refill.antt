-- ===== src/RateLimiter/Refill.antt =====
-- One run of the script, read through numbers: with a clock that does not go back the bucket holds
-- between no tokens and its capacity, and what a run takes was there or was refilled.
use insider_one_notification.Prelude.{
  leb, ◌/◌, ℕ, ◌+◌, ◌-◌, ◌*◌, ◌≤◌, ◌≡◌, refl, Bool, true, false, none, some, arith, if◌then◌else◌,
}
use insider_one_notification.Prelude.Int.{pos, sub_ℕ}
use insider_one_notification.RateLimiter.{
  Bucket, TokenBucketLimiter, capacity, load, refill, token_bucket_script, consume,
}

-- The bucket holds `n` thousandths of a token.
abbrev pub Holds : ℕ → Bucket → Type 0
Holds n b = b.tokens ≡ pos n

abbrev pub cost : Bool → ℕ
cost true = 1000
cost false = 0

abbrev pub holding : ℕ → ℕ → Bucket
holding n now = record { tokens = pos n; last_refill = now }

module _ (l : TokenBucketLimiter) where
  -- What `n` thousandths, last refilled `elapsed` milliseconds ago, have grown to.
  abbrev pub grown : ℕ → ℕ → ℕ
  grown n elapsed =
      if leb (n + elapsed * l.rate) (capacity l) then n + elapsed * l.rate else capacity l

  sub_zero :
      (a b n : ℕ)
      → a ≤ b
      → sub_ℕ (n + (b - a) * l.rate) (0 + (a - b) * l.rate) ≡ pos (n + (b - a) * l.rate)
  unfolding sub_ℕ
  sub_zero a b n h = let z : a - b ≡ 0 = omega arith in rw z (ground arith)

  refill-holding :
      (now n since : ℕ)
      → since ≤ now
      → refill l now (holding n since) ≡ holding (grown n (now - since)) now
  unfolding refill
  refill-holding now n since h = rw (sub_zero since now n h) (ground arith)

  consume-holding :
      (now m : ℕ)
      → consume l (holding m now) ≡ (
          if leb 1000 m
          then (true, 0, holding (m - 1000) now)
          else (false, (1000 - m + (l.rate - 1)) / l.rate, holding m now))
  unfolding consume sub_ℕ
  consume-holding now m = ground arith

  -- The script on a bucket that was refilled before `now`.
  pub script-holding :
      (now n since : ℕ)
      → since ≤ now
      → let m = grown n (now - since) in
        token_bucket_script l now (some (holding n since)) ≡ (
          if leb 1000 m
          then (true, 0, holding (m - 1000) now)
          else (false, (1000 - m + (l.rate - 1)) / l.rate, holding m now))
  unfolding token_bucket_script load
  script-holding now n since h =
      rw (refill-holding now n since h) (consume-holding now (grown n (now - since)))

  -- The first call finds the bucket full.
  pub script-none :
      (now : ℕ)
      → token_bucket_script l now none ≡ token_bucket_script l now (some (holding (capacity l) now))
  unfolding token_bucket_script load
  script-none now = refl
