-- ===== src/Examples/LimiterRuns.antt =====
-- A limiter of two tokens a second, with a burst of one.
use insider_one_notification.Prelude.{
  ℕ, ◌+◌, ◌-◌, ◌*◌, ◌≤◌, ◌≡◌, refl, false, none, some, [], ◌∷◌, arith,
}
use insider_one_notification.Prelude.Int.{sub_ℕ}
use insider_one_notification.RateLimiter.{
  TokenBucketLimiter, Attempt, replied, load, refill, consume, wait_ms, token_bucket_script, wait,
}
use insider_one_notification.RateLimiter.Refill.{holding}
use insider_one_notification.RateLimiter.Throughput.{allowed_count, throughput_bounded}
use insider_one_notification.RateLimiter.Waiting.{WaitOutcome, wait_outcome}

abbrev slow : TokenBucketLimiter
slow = record { rate = 2; burst = 1 }

throughput_bounded_example :
    (allowed_count slow (1000 ∷ 1200 ∷ 1700 ∷ []) (some (holding 300 900)) * 1000
      ≤ 1 * 1000 + (2000 - 1000) * 2)
    × (allowed_count slow (1000 ∷ 1200 ∷ 1700 ∷ []) none * 1000 ≤ 1 * 1000 + (2000 - 1000) * 2)
throughput_bounded_example =
    throughput_bounded slow (1200 ∷ 1700 ∷ []) 300 900 1000 2000 (omega arith) (omega arith)

refused : (token_bucket_script slow 1000 (some (holding 300 900))).0 ≡ false
unfolding token_bucket_script load refill consume sub_ℕ
refused = refl

named_wait : (token_bucket_script slow 1000 (some (holding 300 900))).1 ≡ 250
unfolding token_bucket_script load refill consume sub_ℕ wait_ms
named_wait = refl

abbrev round_at : ℕ → Attempt
round_at t = record { others = []; at = t; call = replied; cancelled = false }

wait_outcome_example :
    WaitOutcome slow
      (round_at 1000 ∷ round_at 1250 ∷ [])
      (some (holding 300 900))
      (wait slow (round_at 1000 ∷ round_at 1250 ∷ []) (some (holding 300 900)))
wait_outcome_example =
    wait_outcome slow (round_at 1000 ∷ round_at 1250 ∷ []) (some (holding 300 900))
