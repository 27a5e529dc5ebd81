-- ===== src/Breaker/Recovery.antt =====
-- The open and the half-open state: rejection until the timeout, the probes, the way back, and the
-- transitions that there are at all.
use insider_one_notification.Prelude.{
  ◌≢◌, length, ◌++◌, if◌then◌else◌, ℕ, ◌+◌, ◌≤◌, ◌<◌, ◌≡◌, refl, ◌⊎◌, none, some, List, [], ◌∷◌,
  All, arith, leb,
}
use insider_one_notification.Errors.{Error, sentinel, circuit_open}
use insider_one_notification.Breaker.{
  CircuitState, closed, open_circuit, half_open, CircuitBreakerConfig, CircuitBreaker,
  allow_request, Event, request, result, step, run,
}

-- The changes of state of the documentation, each with what sets it off.
infix 40 ◌⟶◌
pub data ◌⟶◌ : CircuitState → CircuitState → Type 0 where
  trip : closed ⟶ open_circuit
  probe : open_circuit ⟶ half_open
  reopen : half_open ⟶ open_circuit
  recover : half_open ⟶ closed
  stay : {s : CircuitState} → s ⟶ s

abbrev pub IsRequest : Event → Type 0
IsRequest (request now) = Unit
IsRequest (result err now) = ⊥

-- A request that comes before the time `deadline`; results may come at any time.
abbrev pub IsBefore : ℕ → Event → Type 0
IsBefore deadline (request now) = now < deadline
IsBefore deadline (result err now) = Unit

-- A success at each of the times.
abbrev pub successes : List ℕ → List Event
successes [] = []
successes (now ∷ times) = result none now ∷ successes times

module _ (config : CircuitBreakerConfig) where
  -- Every critical section moves the state along an edge of the diagram; only a request leaves the
  -- open state, and only a result leaves the closed and the half-open state.
  pub step-⟶ :
      (e : Event) (cb : CircuitBreaker)
      → (cb.state ⟶ (step config e cb).state)
        × (cb.state ≡ open_circuit → ((step config e cb).state ≡ open_circuit) ⊎ IsRequest e)
        × (cb.state ≢ open_circuit → ((step config e cb).state ≡ cb.state) ⊎ ¬ (IsRequest e))
  unfolding step
  step-⟶ (request now) cb = grind (arith, trip, probe, reopen, recover, stay)
  step-⟶ (result none now) cb = grind (arith, trip, probe, reopen, recover, stay)
  step-⟶ (result (some err) now) cb = grind (arith, trip, probe, reopen, recover, stay)

  run-cons :
      (e : Event) (es : List Event) (cb : CircuitBreaker)
      → run config (e ∷ es) cb ≡ run config es (step config e cb)
  unfolding run
  run-cons e es cb = refl

  step_open :
      (e : Event) (cb : CircuitBreaker)
      → cb.state ≡ open_circuit
      → IsBefore (cb.opened_at + config.open_timeout) e
      → step config e cb ≡ cb
  unfolding step
  step_open (request now) cb o h = ground arith
  step_open (result none now) cb o h = ground arith
  step_open (result (some err) now) cb o h = ground arith

  run_open :
      (es : List Event) (cb : CircuitBreaker)
      → cb.state ≡ open_circuit
      → All (IsBefore (cb.opened_at + config.open_timeout)) es
      → run config es cb ≡ cb
  unfolding run
  run_open [] cb o h = refl
  run_open (e ∷ es) cb o h = rw (step_open e cb o h.0) (run_open es cb o h.1)

  allow_open :
      (now : ℕ) (cb : CircuitBreaker)
      → cb.state ≡ open_circuit
      → now < cb.opened_at + config.open_timeout
      → allow_request config now cb ≡ (some (sentinel circuit_open), cb)
  unfolding allow_request
  allow_open now cb o h = ground arith

  -- Until `open_timeout` has passed since it opened, an open breaker rejects every request with
  -- ErrCircuitOpen and does not change, whatever requests and late results came before that one.
  pub open_rejects :
      (es : List Event) (now : ℕ) (cb : CircuitBreaker)
      → cb.state ≡ open_circuit
      → All (IsBefore (cb.opened_at + config.open_timeout)) es
      → now < cb.opened_at + config.open_timeout
      → allow_request config now (run config es cb) ≡ (some (sentinel circuit_open), cb)
  open_rejects es now cb o h early = rw (run_open es cb o h) (allow_open now cb o early)

  probe_open :
      (now : ℕ) (cb : CircuitBreaker)
      → cb.state ≡ open_circuit
      → cb.opened_at + config.open_timeout ≤ now
      → step config (request now) cb ≡ record cb { state = half_open; consecutive_successes = 0 }
  unfolding step
  probe_open now cb o h = ground arith

  succeed_half_open :
      (now : ℕ) (cb : CircuitBreaker)
      → cb.state ≡ half_open
      → step config (result none now) cb ≡ (
          if leb config.success_threshold (cb.consecutive_successes + 1)
          then record cb { state = closed; consecutive_failures = 0; consecutive_successes = 0 }
          else record cb { consecutive_successes = cb.consecutive_successes + 1 })
  unfolding step
  succeed_half_open now cb h = ground arith

  successes_half_open :
      (times : List ℕ) (cb : CircuitBreaker)
      → cb.state ≡ half_open
      → cb.consecutive_successes + length times < config.success_threshold
      → run config (successes times) cb
        ≡ record cb { consecutive_successes = cb.consecutive_successes + length times }
  successes_half_open [] cb h few = unfold run in ground arith
  successes_half_open (now ∷ times) cb h few =
      let counted = record cb { consecutive_successes = cb.consecutive_successes + 1 } in
      let one : step config (result none now) cb ≡ counted =
        rw (succeed_half_open now cb h) (ground arith) in
      rw (run-cons, one) (ground (arith, successes_half_open times counted h (omega arith)))

  run_snoc :
      (es : List Event) (e : Event) (cb : CircuitBreaker)
      → run config (es ++ e ∷ []) cb ≡ step config e (run config es cb)
  unfolding run
  run_snoc [] e cb = refl
  run_snoc (x ∷ es) e cb = run_snoc es e (step config x cb)

  fail_half_open :
      (err : Error) (now : ℕ) (cb : CircuitBreaker)
      → cb.state ≡ half_open
      → step config (result (some err) now) cb ≡ record {
        state = open_circuit;
        consecutive_failures = 0;
        consecutive_successes = 0;
        opened_at = now;
      }
  unfolding step
  fail_half_open err now cb h = ground arith

  -- Once the timeout has passed, a request makes an open breaker half-open. Then, with fewer
  -- successes than `success_threshold` so far, one failure opens it again from the time of that
  -- failure, and one success more than `success_threshold - 1` closes it with its counters at zero.
  pub half_open_outcome :
      (now last : ℕ) (times : List ℕ) (err : Error) (cb : CircuitBreaker)
      → cb.state ≡ open_circuit
      → cb.opened_at + config.open_timeout ≤ now
      → length times < config.success_threshold
      → (run config (request now ∷ successes times ++ result (some err) last ∷ []) cb ≡ record {
        state = open_circuit;
        consecutive_failures = 0;
        consecutive_successes = 0;
        opened_at = last;
      })
        × (length times + 1 ≡ config.success_threshold
            → run config (request now ∷ successes times ++ result none last ∷ []) cb ≡ record {
              state = closed;
              consecutive_failures = 0;
              consecutive_successes = 0;
              opened_at = cb.opened_at;
            })
  half_open_outcome now last times err cb o late few =
      let probing = record cb { state = half_open; consecutive_successes = 0 } in
      let tried = record probing { consecutive_successes = length times } in
      let probed : run config (request now ∷ successes times) cb ≡ tried =
        rw (run-cons, probe_open now cb o late)
          (ground (arith, successes_half_open times probing refl (omega arith))) in
      (
        rw (run_snoc (request now ∷ successes times) (result (some err) last) cb, probed)
            (fail_half_open err last tried refl),
        λ all.
            rw (run_snoc (request now ∷ successes times) (result none last) cb, probed)
              (rw (succeed_half_open last tried refl) (ground arith)),
      )

  -- The converse: a request is rejected only before the timeout of the open state, with that error.
  abbrev pub IsRejected : ℕ → CircuitBreaker → Type 0
  IsRejected now cb = (cb.state ≡ open_circuit) × (now < cb.opened_at + config.open_timeout)

  pub allow_request-IsRejected :
      (now : ℕ) (cb : CircuitBreaker) (e : Error)
      → (allow_request config now cb).0 ≡ some e
      → IsRejected now cb × (e ≡ sentinel circuit_open) × ((allow_request config now cb).1 ≡ cb)
  unfolding allow_request
  allow_request-IsRejected now cb e h = grind arith
