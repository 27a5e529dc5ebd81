-- ===== src/RateLimiter/Waiting.antt =====
-- `Wait`: which round ends the loop, and with what.
use insider_one_notification.Prelude.{
  ℕ, ◌≡◌, refl, ap, ◌⊎◌, inl, inr, Bool, true, false, Option, none, some, List, [], ◌∷◌, ◌++◌,
}
use insider_one_notification.Errors.{Error, plain}
use insider_one_notification.Result.{Result, ok, err}
use insider_one_notification.RateLimiter.{
  Bucket, TokenBucketLimiter, Attempt, allow, allow_all, after_allow, wait,
}

module _ (l : TokenBucketLimiter) where
  -- What Allow replies in a round, and the bucket after it.
  abbrev pub answer : Attempt → Option Bucket → Result (Bool × ℕ) × Option Bucket
  answer a stored = allow l a.call a.at (allow_all l a.others stored)

  abbrev pub stored_after : List Attempt → Option Bucket → Option Bucket
  stored_after [] stored = stored
  stored_after (a ∷ rounds) stored = stored_after rounds (answer a stored).1

  -- In each of the rounds Allow refused, and the timer fired before the context was done.
  abbrev pub AllRefused : List Attempt → Option Bucket → Type 0
  AllRefused [] stored = Unit
  AllRefused (a ∷ rounds) stored =
      ((ms : ℕ) × ((answer a stored).0 ≡ ok (false, ms)) × (a.cancelled ≡ false))
      × AllRefused rounds (answer a stored).1

  -- Why a round ends the loop.
  abbrev pub Ends : Result (Bool × ℕ) → Bool → Result (Unit {0}) → Type 0
  Ends reply cancelled result =
      ((ms : ℕ) × (reply ≡ ok (true, ms)) × (result ≡ ok tt))
      ⊎ ((e : Error) × (reply ≡ err e) × (result ≡ err e))
      ⊎ ((ms : ℕ) × (reply ≡ ok (false, ms))
          × (cancelled ≡ true)
          × (result ≡ err (plain "context canceled")))

  abbrev pub WaitOutcome :
      List Attempt → Option Bucket → Option (Result (Unit {0})) × Option Bucket → Type 0
  WaitOutcome rounds stored (none, bucket) =
      AllRefused rounds stored × (bucket ≡ stored_after rounds stored)
  WaitOutcome rounds stored (some result, bucket) =
      (earlier : List Attempt) × (last : Attempt) × (later : List Attempt) × (rounds
        ≡ earlier ++ last ∷ later)
      × AllRefused earlier stored
      × Ends (answer last (stored_after earlier stored)).0 last.cancelled result
      × (bucket ≡ (answer last (stored_after earlier stored)).1)

  refused_then :
      (a : Attempt) (rounds : List Attempt) (stored : Option Bucket) (ms : ℕ)
      (out : Option (Result (Unit {0})) × Option Bucket)
      → (answer a stored).0 ≡ ok (false, ms)
      → a.cancelled ≡ false
      → WaitOutcome rounds (answer a stored).1 out
      → WaitOutcome (a ∷ rounds) stored out
  refused_then a rounds stored ms (none, bucket) reply goes_on (all, same) =
      (((ms, reply, goes_on), all), same)
  refused_then a rounds stored ms (some result, bucket) reply goes_on
        (earlier, last, later, parts, all, ends, same) =
      (a ∷ earlier, last, later, ap (λ rs. a ∷ rs) parts, ((ms, reply, goes_on), all), ends, same)

  round_outcome :
      (a : Attempt) (rounds : List Attempt) (stored : Option Bucket) (reply : Result (Bool × ℕ))
      (cancelled : Bool) (rest : Option (Result (Unit {0})) × Option Bucket)
      → (answer a stored).0 ≡ reply
      → a.cancelled ≡ cancelled
      → WaitOutcome rounds (answer a stored).1 rest
      → WaitOutcome (a ∷ rounds) stored (after_allow l reply cancelled (answer a stored).1 rest)
  unfolding after_allow
  round_outcome a rounds stored (err e) cancelled rest said done ih =
      ([], a, rounds, refl, tt, inr (inl (e, said, refl)), refl)
  round_outcome a rounds stored (ok (true, ms)) cancelled rest said done ih =
      ([], a, rounds, refl, tt, inl (ms, said, refl), refl)
  round_outcome a rounds stored (ok (false, ms)) true rest said done ih =
      ([], a, rounds, refl, tt, inr (inr (ms, said, done, refl)), refl)
  round_outcome a rounds stored (ok (false, ms)) false rest said done ih =
      refused_then a rounds stored ms rest said done ih

  -- Wait ends in the first round in which Allow grants a token, and returns nil; or in which Allow fails,
  -- and returns its error; or in which Allow refuses and the context is done before the timer fires, and
  -- returns the error of the context. It calls Allow once in each round up to that one, each refused, and
  -- not again; while every round is refused and its timer fires, it goes on.
  pub wait_outcome :
      (rounds : List Attempt) (stored : Option Bucket)
      → WaitOutcome rounds stored (wait l rounds stored)
  unfolding wait
  wait_outcome [] stored = (tt, refl)
  wait_outcome (a ∷ rounds) stored =
      let (reply, bucket) = answer a stored in
      round_outcome a rounds stored reply a.cancelled (wait l rounds bucket) refl refl
        (wait_outcome rounds bucket)
