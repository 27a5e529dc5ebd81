-- ===== src/Errors.antt =====
-- internal/domain/errors/errors.go, and the sentinel of the circuit breaker. A Go error is a value of
-- `Error`; `pg_error` is a *pgconn.PgError with its code, and `wrap` is `fmt.Errorf("...: %w", ..., err)`,
-- whose context keeps the fixed text only.
use insider_one_notification.Prelude.{ℕ, String}

-- The errors that are compared by identity.
pub data Sentinel : Type 0 where
  not_found duplicate_idempotency_key invalid_input rate_limited channel_unavailable
        max_retries_exceeded circuit_open :
      Sentinel

pub data Error : Type 0 where
  sentinel : Sentinel → Error
  validation_error : String → String → Error
  not_found_error : String → ℕ → Error
  wrap : String → Error → Error
  pg_error : String → Error
  plain : String → Error
