-- ===== src/Breaker.antt =====
-- internal/infrastructure/httpclient/circuit_breaker.go. The breaker is a record, a method returns
-- the new record, and the reading of the clock that a method makes is an argument. The three
-- constants are all the values that `circuitState` takes, so the `default` branches are not reached.
pub mod Invariant
pub mod Threshold
pub mod Recovery
use insider_one_notification.Prelude.{ℕ, ◌+◌, Option, none, some, List, [], ◌∷◌, leb, if◌then◌else◌}
use insider_one_notification.Errors.{Error, sentinel, circuit_open}

pub data CircuitState : Type 0 where
  closed open_circuit half_open : CircuitState

pub record CircuitBreakerConfig : Type 0 where
  pub failure_threshold : ℕ
  pub success_threshold : ℕ
  pub open_timeout : ℕ  -- nanoseconds

abbrev pub default_circuit_breaker_config : CircuitBreakerConfig
default_circuit_breaker_config = record {
  failure_threshold = 5;
  success_threshold = 3;
  open_timeout = 30000000000;
}

pub record CircuitBreaker : Type 0 where
  pub state : CircuitState
  pub consecutive_failures : ℕ
  pub consecutive_successes : ℕ
  pub opened_at : ℕ

abbrev pub new_circuit_breaker : CircuitBreaker
new_circuit_breaker = record {
  state = closed;
  consecutive_failures = 0;
  consecutive_successes = 0;
  opened_at = 0;
}

-- The two critical sections of `Send`. Several calls of `Send` may be in flight, so a run of the
-- breaker is any list of these, in the order in which the lock was taken.
pub data Event : Type 0 where
  request : ℕ → Event
  result : Option Error → ℕ → Event

module _ (config : CircuitBreakerConfig) where
  unfoldable pub trip_open : ℕ → CircuitBreaker → CircuitBreaker
  trip_open now cb = record cb {
    state = open_circuit;
    opened_at = now;
    consecutive_failures = 0;
    consecutive_successes = 0;
  }

  -- `time.Since(openedAt) >= OpenTimeout`; the result is nil or the error.
  allow_in : CircuitState → ℕ → CircuitBreaker → Option Error × CircuitBreaker
  allow_in closed now cb = (none, cb)
  allow_in open_circuit now cb =
      if leb (cb.opened_at + config.open_timeout) now
      then (none, record cb { state = half_open; consecutive_successes = 0 })
      else (some (sentinel circuit_open), cb)
  allow_in half_open now cb = (none, cb)

  unfoldable pub allow_request : ℕ → CircuitBreaker → Option Error × CircuitBreaker
  unfolding allow_in
  allow_request now cb = allow_in cb.state now cb

  fail_in : CircuitState → ℕ → CircuitBreaker → CircuitBreaker
  unfolding trip_open
  fail_in closed now cb =
      let counted = record cb { consecutive_failures = cb.consecutive_failures + 1 } in
      if leb config.failure_threshold counted.consecutive_failures
      then trip_open now counted
      else counted
  fail_in open_circuit now cb = cb
  fail_in half_open now cb = trip_open now cb

  unfoldable pub on_failure : ℕ → CircuitBreaker → CircuitBreaker
  unfolding fail_in
  on_failure now cb = fail_in cb.state now cb

  succeed_in : CircuitState → CircuitBreaker → CircuitBreaker
  succeed_in closed cb = record cb { consecutive_failures = 0 }
  succeed_in open_circuit cb = cb
  succeed_in half_open cb =
      let counted = record cb { consecutive_successes = cb.consecutive_successes + 1 } in
      if leb config.success_threshold counted.consecutive_successes
      then record counted { state = closed; consecutive_failures = 0; consecutive_successes = 0 }
      else counted

  unfoldable pub on_success : CircuitBreaker → CircuitBreaker
  unfolding succeed_in
  on_success cb = succeed_in cb.state cb

  unfoldable pub record_result : Option Error → ℕ → CircuitBreaker → CircuitBreaker
  unfolding on_failure on_success
  record_result none now cb = on_success cb
  record_result (some err) now cb = on_failure now cb

  unfoldable pub step : Event → CircuitBreaker → CircuitBreaker
  unfolding allow_request record_result
  step (request now) cb = (allow_request now cb).1
  step (result err now) cb = record_result err now cb

  unfoldable pub run : List Event → CircuitBreaker → CircuitBreaker
  run [] cb = cb
  run (e ∷ es) cb = run es (step e cb)
