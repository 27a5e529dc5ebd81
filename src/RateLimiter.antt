-- ===== src/RateLimiter.antt =====
-- internal/infrastructure/redis/rate_limiter.go: the Lua script of the token bucket, `Allow`, `Wait`.
-- Tokens are counted in thousandths, so that a millisecond at `rate` tokens a second adds `rate` of them:
-- the arithmetic is exact where Lua rounds to doubles, so that the script may refuse a call, at the time
-- that it named itself, which the model grants. A clock that went back makes the count negative.
-- What Redis and the context do in a round is an `Attempt`.
pub mod Refill
pub mod Throughput
pub mod Waiting
use insider_one_notification.Prelude.{
  ℕ, ◌+◌, ◌-◌, ◌*◌, ◌/◌, Bool, true, false, Option, none, some, List, [], ◌∷◌, ltb, if◌then◌else◌,
}
use insider_one_notification.Prelude.Int.{ℤ, pos, pos_part, neg_part, sub_ℕ, leb_ℤ}
use insider_one_notification.Errors.{Error, plain}
use insider_one_notification.Result.{Result, ok, err}

-- The fields `tokens` and `last_refill` of the Redis hash.
pub record Bucket : Type 0 where
  pub tokens : ℤ
  pub last_refill : ℕ  -- milliseconds

pub record TokenBucketLimiter : Type 0 where
  pub rate : ℕ
  pub burst : ℕ

-- What Redis does with a call: it runs the script and replies, it runs it and the reply is lost,
-- or it does not run it.
pub data Call : Type 0 where
  replied : Call
  reply_lost : Error → Call
  refused : Error → Call

-- One round of `Wait`: the calls that other workers made since the last one, the time and the fate
-- of its own call of `Allow`, and whether the context is done before the timer fires.
pub record Attempt : Type 0 where
  pub others : List ℕ
  pub at : ℕ
  pub call : Call
  pub cancelled : Bool

-- `retryAfter` after the test that keeps the loop from spinning, in milliseconds.
unfoldable pub pause : ℕ → ℕ
pause wait = if ltb wait 1 then 1 else wait

module _ (l : TokenBucketLimiter) where
  abbrev pub capacity : ℕ
  capacity = l.burst * 1000

  -- A missing hash is a full bucket.
  unfoldable pub load : ℕ → Option Bucket → Bucket
  load now none = record { tokens = pos capacity; last_refill = now }
  load now (some b) = b

  -- `math.min(tokens + added, burst)`, with `last_refill = now_ms`.
  unfoldable pub refill : ℕ → Bucket → Bucket
  refill now b =
      let gained = (now - b.last_refill) * l.rate in
      let lost = (b.last_refill - now) * l.rate in
      let tokens = sub_ℕ (pos_part b.tokens + gained) (neg_part b.tokens + lost) in
      record {
        tokens = if leb_ℤ tokens (pos capacity) then tokens else pos capacity;
        last_refill = now;
      }

  -- `math.ceil((1 - tokens) / rate * 1000)`, for fewer tokens than one.
  unfoldable pub wait_ms : ℤ → ℕ
  wait_ms tokens = (1000 + neg_part tokens - pos_part tokens + (l.rate - 1)) / l.rate

  unfoldable pub consume : Bucket → Bool × ℕ × Bucket
  unfolding wait_ms
  consume b =
      if leb_ℤ (pos 1000) b.tokens
      then (true, 0, record b { tokens = sub_ℕ (pos_part b.tokens) (neg_part b.tokens + 1000) })
      else (false, wait_ms b.tokens, b)

  -- The reply {allowed, wait_ms}, and the bucket that is stored.
  unfoldable pub token_bucket_script : ℕ → Option Bucket → Bool × ℕ × Bucket
  token_bucket_script now stored = consume (refill now (load now stored))

  unfoldable pub allow : Call → ℕ → Option Bucket → Result (Bool × ℕ) × Option Bucket
  allow replied now stored =
      let (allowed, wait, b) = token_bucket_script now stored in (ok (allowed, wait), some b)
  allow (reply_lost e) now stored =
      let (allowed, wait, b) = token_bucket_script now stored in (err e, some b)
  allow (refused e) now stored = (err e, stored)

  -- The calls of other workers, all of which run the script.
  unfoldable pub allow_all : List ℕ → Option Bucket → Option Bucket
  allow_all [] stored = stored
  allow_all (now ∷ times) stored = allow_all times (some (token_bucket_script now stored).2)

  -- What `Wait` does with the reply of a round, and `rest` if it goes on to the next one.
  after_allow :
      Result (Bool × ℕ)
      → Bool
      → Option Bucket
      → Option (Result (Unit {0})) × Option Bucket
      → Option (Result (Unit {0})) × Option Bucket
  after_allow (err e) cancelled stored rest = (some (err e), stored)
  after_allow (ok (true, wait)) cancelled stored rest = (some (ok tt), stored)
  after_allow (ok (false, wait)) cancelled stored rest =
      if cancelled then (some (err (plain "context canceled")), stored) else rest

  -- The rounds are listed; the result is `none` if it is still waiting after the last of them.
  unfoldable pub wait : List Attempt → Option Bucket → Option (Result (Unit {0})) × Option Bucket
  unfolding after_allow
  wait [] stored = (none, stored)
  wait (a ∷ rounds) stored =
      let (reply, stored') = allow a.call a.at (allow_all a.others stored) in
      let rest = wait rounds stored' in after_allow reply a.cancelled stored' rest
