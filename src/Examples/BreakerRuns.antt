-- ===== src/Examples/BreakerRuns.antt =====
-- A breaker that trips after two failures and closes after two successes.
use insider_one_notification.Prelude.{
  ℕ, ◌+◌, ◌≡◌, ◌≢◌, refl, ◌⊎◌, ◌↔◌, Option, none, some, [], ◌∷◌, ◌++◌, arith,
}
use insider_one_notification.Errors.{Error, plain, sentinel, circuit_open}
use insider_one_notification.Breaker.{
  CircuitBreakerConfig, CircuitBreaker, new_circuit_breaker, closed, open_circuit, half_open,
  request, result, allow_request, step, run,
}
use insider_one_notification.Breaker.Invariant.{Inv, run-Inv}
use insider_one_notification.Breaker.Threshold.{History, record_all, HasRun, open_iff-HasRun}
use insider_one_notification.Breaker.Recovery.{
  ◌⟶◌, IsRequest, successes, step-⟶, open_rejects, half_open_outcome,
}

abbrev quick : CircuitBreakerConfig
quick = record { failure_threshold = 2; success_threshold = 2; open_timeout = 10 }

abbrev down : Option Error
down = some (plain "503")

abbrev tripped : CircuitBreaker
tripped = record {
  state = open_circuit;
  consecutive_failures = 0;
  consecutive_successes = 0;
  opened_at = 7;
}

abbrev probing : CircuitBreaker
probing = record tripped { state = half_open }

trips : run quick (request 1 ∷ result down 2 ∷ result down 7 ∷ []) new_circuit_breaker ≡ tripped
unfolding run step
trips = refl

run-Inv_example :
    Inv quick (run quick (request 1 ∷ result down 2 ∷ request 3 ∷ []) new_circuit_breaker)
run-Inv_example =
    run-Inv quick (omega arith) (omega arith) (request 1 ∷ result down 2 ∷ request 3 ∷ [])

abbrev outage : History
outage = (down, 1) ∷ (none, 2) ∷ (down, 3) ∷ (down, 4) ∷ []

open_iff-HasRun_example :
    ((record_all quick outage new_circuit_breaker).state ≡ open_circuit) ↔ HasRun 2 outage
open_iff-HasRun_example = open_iff-HasRun quick outage (omega arith)

step-⟶_example :
    (closed ⟶ (step quick (result down 5) new_circuit_breaker).state)
    × (closed ≡ open_circuit
        → ((step quick (result down 5) new_circuit_breaker).state ≡ open_circuit)
          ⊎ IsRequest (result down 5))
    × (closed ≢ open_circuit
        → ((step quick (result down 5) new_circuit_breaker).state ≡ closed)
          ⊎ ¬ (IsRequest (result down 5)))
step-⟶_example = step-⟶ quick (result down 5) new_circuit_breaker

open_rejects_example :
    allow_request quick 16 (run quick (request 9 ∷ result none 12 ∷ []) tripped)
    ≡ (some (sentinel circuit_open), tripped)
open_rejects_example =
    open_rejects quick (request 9 ∷ result none 12 ∷ []) 16 tripped refl (omega arith) (omega arith)

half_open_outcome_example :
    (run quick (request 17 ∷ successes (18 ∷ []) ++ result down 19 ∷ []) tripped
      ≡ record tripped { opened_at = 19 })
    × (◌≡◌ {A = ℕ} (1 + 1) 2
        → run quick (request 17 ∷ successes (18 ∷ []) ++ result none 19 ∷ []) tripped
          ≡ record tripped { state = closed })
half_open_outcome_example =
    half_open_outcome quick 17 19 (18 ∷ []) (plain "503") tripped refl (omega arith) (omega arith)
