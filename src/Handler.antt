-- ===== src/Handler.antt =====
-- internal/delivery/handler/notification_handler.go: mapDomainError, with errors.Is and errors.As on the
-- domain errors, and parsePagination. strconv.Atoi and the method Error are parameters.
pub mod ErrorStatus
pub mod Health
pub mod Notifications
pub mod Pagination
pub mod Templates
use Prim.Native.String.{◌++◌ as ◌+++◌}
use insider_one_notification.Prelude.{
  ℕ, zero, suc, String, Bool, true, false, Option, none, some, is_some, List, [], ◌∷◌, ltb, str_eq,
  if◌then◌else◌,
}
use insider_one_notification.Prelude.Int.{ℤ, pos, negsuc}
use insider_one_notification.Errors.{
  Sentinel, not_found, duplicate_idempotency_key, invalid_input, rate_limited, channel_unavailable,
  max_retries_exceeded, circuit_open, Error, sentinel, validation_error, not_found_error, wrap,
}

abbrev pub same_sentinel : Sentinel → Sentinel → Bool
same_sentinel not_found not_found = true
same_sentinel duplicate_idempotency_key duplicate_idempotency_key = true
same_sentinel invalid_input invalid_input = true
same_sentinel rate_limited rate_limited = true
same_sentinel channel_unavailable channel_unavailable = true
same_sentinel max_retries_exceeded max_retries_exceeded = true
same_sentinel circuit_open circuit_open = true
same_sentinel _ _ = false

-- errors.Is(err, target), with the methods Is of ValidationError and NotFoundError.
unfoldable pub is_error : Sentinel → Error → Bool
is_error target (sentinel s) = same_sentinel s target
is_error target (validation_error field text) = same_sentinel target invalid_input
is_error target (not_found_error entity id) = same_sentinel target not_found
is_error target (wrap context e) = is_error target e
is_error target _ = false

-- errors.As(err, &validationErr): the field and the message.
unfoldable pub as_validation_error : Error → Option (String × String)
as_validation_error (validation_error field text) = some (field, text)
as_validation_error (wrap context e) = as_validation_error e
as_validation_error _ = none

-- errors.As(err, &notFoundErr): the error that was found.
unfoldable pub as_not_found_error : Error → Option Error
as_not_found_error (not_found_error entity id) = some (not_found_error entity id)
as_not_found_error (wrap context e) = as_not_found_error e
as_not_found_error _ = none

pub record ErrorResponse : Type 0 where
  pub status : ℕ
  pub error : String
  pub details : List (String × String)

abbrev pub respond : ℕ → String → ErrorResponse
respond status error = record { status = status; error = error; details = [] }

-- The branches after the two calls of errors.As.
unfoldable pub map_sentinel : (Error → String) → Error → ErrorResponse
map_sentinel text e =
    if is_error not_found e
    then respond 404 "not found"
    else if is_error duplicate_idempotency_key e
    then respond 409 "duplicate idempotency key"
    else if is_error invalid_input e
    then respond 400 (text e)
    else if is_error rate_limited e
    then respond 429 "rate limited"
    else respond 500 "internal server error"

map_not_found : (Error → String) → Option Error → Error → ErrorResponse
map_not_found text (some found) e = respond 404 (text found)
map_not_found text none e = map_sentinel text e

map_validation : (Error → String) → Option (String × String) → Error → ErrorResponse
unfolding map_not_found
map_validation text (some detail) e = record {
  status = 422;
  error = "validation failed";
  details = detail ∷ [];
}
map_validation text none e = map_not_found text (as_not_found_error e) e

unfoldable pub map_domain_error : (Error → String) → Error → ErrorResponse
unfolding map_validation
map_domain_error text e = map_validation text (as_validation_error e) e

abbrev pub default_offset : ℕ
default_offset = 0

abbrev pub default_limit : ℕ
default_limit = 20

abbrev pub max_limit : ℕ
max_limit = 100

abbrev pub offset_of : Option ℤ → ℕ
offset_of (some (pos n)) = n
offset_of _ = default_offset

abbrev pub limit_of : Option ℤ → ℕ
limit_of (some (pos (suc n))) = suc n
limit_of _ = default_limit

-- An absent parameter of the query is "".
unfoldable pub parse_pagination : (String → Option ℤ) → String → String → ℕ × ℕ
parse_pagination atoi offset limit =
    let parsed = if str_eq limit "" then default_limit else limit_of (atoi limit) in
    (
      if str_eq offset "" then default_offset else offset_of (atoi offset),
      if ltb max_limit parsed then max_limit else parsed,
    )
