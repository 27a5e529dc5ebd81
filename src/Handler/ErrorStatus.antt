-- ===== src/Handler/ErrorStatus.antt =====
-- The status of an error is that of its cause.
use insider_one_notification.Prelude.{
  ℕ, String, ◌≡◌, refl, ◌∙◌, inl, inr, Bool-cases, Option, none, some,
}
use insider_one_notification.Errors.{
  Sentinel, not_found, duplicate_idempotency_key, invalid_input, rate_limited, channel_unavailable,
  max_retries_exceeded, circuit_open, Error, sentinel, validation_error, not_found_error, wrap,
  pg_error, plain,
}
use insider_one_notification.Handler.{
  is_error, as_validation_error, as_not_found_error, map_sentinel, map_not_found, map_validation,
  map_domain_error,
}

-- The error that the wraps stand around.
unfoldable pub cause : Error → Error
cause (wrap context e) = cause e
cause e = e

abbrev pub status_of_sentinel : Sentinel → ℕ
status_of_sentinel not_found = 404
status_of_sentinel duplicate_idempotency_key = 409
status_of_sentinel invalid_input = 400
status_of_sentinel rate_limited = 429
status_of_sentinel _ = 500

abbrev pub status_of : Error → ℕ
status_of (validation_error field text) = 422
status_of (not_found_error entity id) = 404
status_of (sentinel s) = status_of_sentinel s
status_of _ = 500

abbrev pub status_at : (Error → String) → Error → ℕ
status_at text e = (map_domain_error text e).status

-- One more wrap changes at most the text of the response.
wrapped_sentinel :
    (text : Error → String) (context : String) (e : Error)
    → (map_sentinel text (wrap context e)).status ≡ (map_sentinel text e).status
unfolding map_sentinel is_error
wrapped_sentinel text context e = elim (Bool-cases (is_error not_found e)) [
  | inl hit ↦ rw hit refl
  | inr miss ↦ rw miss (elim (Bool-cases (is_error duplicate_idempotency_key e)) [
    | inl hit' ↦ rw hit' refl
    | inr miss' ↦ rw miss' (elim (Bool-cases (is_error invalid_input e)) [
      | inl bad ↦ rw bad refl
      | inr fine ↦ rw fine refl
    ])
  ])
]

wrapped_not_found :
    (text : Error → String) (context : String) (found : Option Error) (e : Error)
    → (map_not_found text found (wrap context e)).status ≡ (map_not_found text found e).status
unfolding map_not_found
wrapped_not_found text context (some x) e = refl
wrapped_not_found text context none e = wrapped_sentinel text context e

wrapped :
    (text : Error → String) (context : String) (detail : Option (String × String)) (e : Error)
    → (map_validation text detail (wrap context e)).status ≡ (map_validation text detail e).status
unfolding map_validation as_not_found_error
wrapped text context (some detail) e = refl
wrapped text context none e = wrapped_not_found text context (as_not_found_error e) e

-- However often an error is wrapped, the client gets the status of its cause: 422 for a ValidationError,
-- 404 for a NotFoundError or ErrNotFound, 409 for ErrDuplicateIdempotencyKey, 400 for ErrInvalidInput, 429
-- for ErrRateLimited, and 500 for everything else.
pub map_domain_error_status :
    (text : Error → String) (e : Error) → status_at text e ≡ status_of (cause e)
unfolding map_domain_error cause is_error as_validation_error as_not_found_error map_sentinel
map_domain_error_status text (validation_error field m) = refl
map_domain_error_status text (not_found_error entity id) = refl
map_domain_error_status text (sentinel not_found) = refl
map_domain_error_status text (sentinel duplicate_idempotency_key) = refl
map_domain_error_status text (sentinel invalid_input) = refl
map_domain_error_status text (sentinel rate_limited) = refl
map_domain_error_status text (sentinel channel_unavailable) = refl
map_domain_error_status text (sentinel max_retries_exceeded) = refl
map_domain_error_status text (sentinel circuit_open) = refl
map_domain_error_status text (pg_error code) = refl
map_domain_error_status text (plain m) = refl
map_domain_error_status text (wrap context e) =
    wrapped text context (as_validation_error e) e ∙ map_domain_error_status text e
