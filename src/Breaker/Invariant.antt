-- ===== src/Breaker/Invariant.antt =====
-- What holds of the breaker between two critical sections, whatever the interleaving of calls.
use insider_one_notification.Prelude.{◌<◌, ◌≡◌, List, [], ◌∷◌, arith}
use insider_one_notification.Breaker.{
  closed, open_circuit, half_open, CircuitBreakerConfig, CircuitBreaker, new_circuit_breaker, Event,
  step, run,
}

-- The counters of a state are below its threshold, and the other counters are zero.
pub record Inv (config : CircuitBreakerConfig) (cb : CircuitBreaker) : Type 0 where
  pub failures_below : cb.state ≡ closed → cb.consecutive_failures < config.failure_threshold
  pub successes_below : cb.state ≡ half_open → cb.consecutive_successes < config.success_threshold
  pub no_failures_half_open : cb.state ≡ half_open → cb.consecutive_failures ≡ 0
  pub no_successes_closed : cb.state ≡ closed → cb.consecutive_successes ≡ 0
  pub open_reset :
      cb.state ≡ open_circuit → (cb.consecutive_failures ≡ 0) × (cb.consecutive_successes ≡ 0)

module _ (config : CircuitBreakerConfig) (failures : 0 < config.failure_threshold)
    (successes : 0 < config.success_threshold) where
  new-Inv : Inv config new_circuit_breaker
  new-Inv = ground arith

  step-Inv : (e : Event) (cb : CircuitBreaker) → Inv config cb → Inv config (step config e cb)
  unfolding step
  step-Inv e cb h = ground arith

  run-Inv_from :
      (es : List (Event)) (cb : CircuitBreaker) → Inv config cb → Inv config (run config es cb)
  unfolding run
  run-Inv_from [] cb h = h
  run-Inv_from (e ∷ es) cb h = run-Inv_from es (step config e cb) (step-Inv e cb h)

  -- With positive thresholds, after any interleaving of requests and results a new breaker has its
  -- failure count below the failure threshold while closed, its success count below the success
  -- threshold while half-open, and every counter that its state does not use at zero.
  pub run-Inv : (es : List (Event)) → Inv config (run config es new_circuit_breaker)
  run-Inv es = run-Inv_from es new_circuit_breaker new-Inv
