-- ===== src/Breaker/Threshold.antt =====
-- When the breaker trips: the counter of the closed state against runs of failures in the history.
use mathlib.Core.List.{append_assoc}
use insider_one_notification.Prelude.{
  ℕ, ◌+◌, ◌≤◌, ◌<◌, ◌≡◌, refl, sym, ◌↔◌, ◌⊎◌, inl, inr, true, Option, none, some, is_some, length,
  length-append, List, [], ◌∷◌, ◌++◌, arith,
}
use insider_one_notification.Errors.{Error}
use insider_one_notification.Breaker.{
  closed, open_circuit, CircuitBreakerConfig, CircuitBreaker, new_circuit_breaker, record_result,
}

-- A history is the results that were recorded, each with the time of its recording.
abbrev pub History : Type 0
History = List (Option Error × ℕ)

abbrev pub record_all : CircuitBreakerConfig → History → CircuitBreaker → CircuitBreaker
record_all config [] cb = cb
record_all config ((err, now) ∷ rest) cb = record_all config rest (record_result config err now cb)

-- At least `k` results that are all failures.
abbrev pub AllFailed : History → Type 0
AllFailed [] = Unit
AllFailed ((err, now) ∷ rest) = (is_some err ≡ true) × AllFailed rest

-- The history has `k` failures in a row, with no success between them.
abbrev pub HasRun : ℕ → History → Type 0
HasRun k history =
    (before : History) × (failures : History) × (after : History) × (history
      ≡ before ++ (failures ++ after))
    × AllFailed failures
    × (length failures ≡ k)

AllFailed-append : (xs ys : History) → AllFailed xs → AllFailed ys → AllFailed (xs ++ ys)
AllFailed-append [] ys h k = k
AllFailed-append (x ∷ xs) ys h k = (h.0, AllFailed-append xs ys h.1 k)

module _ (config : CircuitBreakerConfig) where
  record_all-append :
      (xs ys : History) (cb : CircuitBreaker)
      → record_all config (xs ++ ys) cb ≡ record_all config ys (record_all config xs cb)
  record_all-append [] ys cb = refl
  record_all-append ((err, now) ∷ xs) ys cb =
      record_all-append xs ys (record_result config err now cb)

  record_all_open :
      (xs : History) (cb : CircuitBreaker)
      → cb.state ≡ open_circuit
      → (record_all config xs cb).state ≡ open_circuit
  unfolding record_result
  record_all_open [] cb h = h
  record_all_open ((none, now) ∷ xs) cb h =
      record_all_open xs (record_result config none now cb) (ground arith)
  record_all_open ((some e, now) ∷ xs) cb h =
      record_all_open xs (record_result config (some e) now cb) (ground arith)

  -- Results alone do not lead to the half-open state, which only a request enters.
  abbrev IsUp : CircuitBreaker → Type 0
  IsUp cb =
      (cb.state ≡ open_circuit)
      ⊎ ((cb.state ≡ closed) × (cb.consecutive_failures < config.failure_threshold))

  record_result-IsUp :
      (err : Option Error) (now : ℕ) (cb : CircuitBreaker)
      → 0 < config.failure_threshold
      → IsUp cb
      → IsUp (record_result config err now cb)
  unfolding record_result
  record_result-IsUp err now cb pos h = ground arith

  record_all-IsUp :
      (xs : History) (cb : CircuitBreaker)
      → 0 < config.failure_threshold
      → IsUp cb
      → IsUp (record_all config xs cb)
  record_all-IsUp [] cb pos h = h
  record_all-IsUp ((err, now) ∷ xs) cb pos h =
      record_all-IsUp xs (record_result config err now cb) pos (record_result-IsUp err now cb pos h)

  fail_closed :
      (e : Error) (now : ℕ) (cb : CircuitBreaker)
      → cb.state ≡ closed
      → ((config.failure_threshold ≤ cb.consecutive_failures + 1)
          × ((record_result config (some e) now cb).state ≡ open_circuit))
        ⊎ ((cb.consecutive_failures + 1 < config.failure_threshold)
            × ((record_result config (some e) now cb).state ≡ closed)
            × ((record_result config (some e) now cb).consecutive_failures
                ≡ cb.consecutive_failures + 1))
  unfolding record_result
  fail_closed e now cb h = ground arith

  succeed_closed :
      (now : ℕ) (cb : CircuitBreaker)
      → cb.state ≡ closed
      → ((record_result config none now cb).state ≡ closed)
        × ((record_result config none now cb).consecutive_failures ≡ 0)
  unfolding record_result
  succeed_closed now cb h = ground arith

  -- Enough failures in a row open a closed breaker.
  failures_open :
      (xs : History) (cb : CircuitBreaker)
      → cb.state ≡ closed
      → cb.consecutive_failures < config.failure_threshold
      → AllFailed xs
      → config.failure_threshold ≤ cb.consecutive_failures + length xs
      → (record_all config xs cb).state ≡ open_circuit
  failures_open [] cb c below h enough = absurd (omega arith)
  failures_open ((none, now) ∷ xs) cb c below h enough = cc (h.0)
  failures_open ((some e, now) ∷ xs) cb c below h enough = elim (fail_closed e now cb c) [
    | inl opened ↦ record_all_open xs (record_result config (some e) now cb) opened.1
    | inr counted ↦
        failures_open xs (record_result config (some e) now cb) counted.1 (omega (arith, counted.2))
          h.1 (omega (arith, counted.2))
  ]

  -- `failures` are the results since the last success, which the counter counts.
  open-HasRun :
      (xs failures : History) (cb : CircuitBreaker)
      → cb.state ≡ closed
      → cb.consecutive_failures < config.failure_threshold
      → AllFailed failures
      → length failures ≡ cb.consecutive_failures
      → (record_all config xs cb).state ≡ open_circuit
      → HasRun config.failure_threshold (failures ++ xs)
  open-HasRun [] failures cb c below h n o = cc (c, o)
  open-HasRun ((none, now) ∷ xs) failures cb c below h n o =
      let (c', n') = succeed_closed now cb c in
      let (before, run, after, e, all, len) =
        open-HasRun xs [] (record_result config none now cb) c' (omega (arith, n')) tt (sym n') o in
      (
        failures ++ (none, now) ∷ before,
        run,
        after,
        rw e (sym (append_assoc failures ((none, now) ∷ before) (run ++ after))),
        all,
        len,
      )
  open-HasRun ((some e, now) ∷ xs) failures cb c below h n o = elim (fail_closed e now cb c) [
    | inl opened ↦ (
      [],
      failures ++ (some e, now) ∷ [],
      xs,
      sym (append_assoc failures ((some e, now) ∷ []) xs),
      AllFailed-append failures ((some e, now) ∷ []) h (refl, tt),
      omega (arith, length-append failures ((some e, now) ∷ []), opened.0),
    )
    | inr counted ↦ rw (sym (append_assoc failures ((some e, now) ∷ []) xs)) (
        open-HasRun xs (failures ++ (some e, now) ∷ []) (record_result config (some e) now cb)
          counted.1 (omega (arith, counted.2))
          (AllFailed-append failures ((some e, now) ∷ []) h (refl, tt))
          (omega (arith, counted.2, length-append failures ((some e, now) ∷ []))) o)
  ]

  HasRun-open :
      (xs : History)
      → 0 < config.failure_threshold
      → HasRun config.failure_threshold xs
      → (record_all config xs new_circuit_breaker).state ≡ open_circuit
  HasRun-open xs pos (before, failures, after, e, all, len) =
      rw (e, record_all-append before (failures ++ after))
        (rw (record_all-append failures after)
          (elim (record_all-IsUp before new_circuit_breaker pos (inr (refl, pos))) [
            | inl o ↦ record_all_open after _ (record_all_open failures _ o)
            | inr c ↦ record_all_open after _ (failures_open failures _ c.0 c.1 all (omega arith))
          ]))

  -- With a positive threshold, the results recorded by a new breaker leave it open exactly when some
  -- `failure_threshold` of them were failures with no success in between.
  pub open_iff-HasRun :
      (xs : History)
      → 0 < config.failure_threshold
      → ((record_all config xs new_circuit_breaker).state ≡ open_circuit)
        ↔ HasRun config.failure_threshold xs
  open_iff-HasRun xs pos =
      (open-HasRun xs [] new_circuit_breaker refl pos tt refl, HasRun-open xs pos)
