-- ===== src/Postgres/Clauses.antt =====
-- The WHERE and SET clauses of internal/infrastructure/postgres/notification_repository.go, as tests and
-- functions on rows.
use insider_one_notification.Prelude.{
  ◌+◌, Bool, false, ◌&&◌, ◌||◌, Option, none, some, List, map, String, ltb, leb, ◌==◌,
}
use insider_one_notification.Entity.{Notification, Status, cancelled, queued, Uuid, Time}
use insider_one_notification.Entity.Statuses.{is_pending, is_queued, is_failed}
use insider_one_notification.Postgres.Row.{Row, microseconds, stored_at}

-- COALESCE(new, old)
abbrev pub coalesce {ℓ} : {A : Type ℓ} → Option A → Option A → Option A
coalesce none old = old
coalesce (some new) old = some new

abbrev pub is_due : Time → Option Time → Bool
is_due now none = false
is_due now (some t) = leb t (microseconds now)

-- The WHERE clauses of FetchScheduledReady, FetchRetryReady and Cancel.
abbrev pub is_scheduled_ready : Time → Row → Bool
is_scheduled_ready now r = is_pending r.status && is_due now r.scheduled_at

abbrev pub is_retry_ready : Time → Row → Bool
is_retry_ready now r =
    is_failed r.status && is_due now r.next_retry_at && ltb r.attempts r.max_attempts

abbrev pub is_cancellable : Uuid → Row → Bool
is_cancellable id r = (r.id == id) && (is_pending r.status || is_queued r.status)

abbrev pub has_id : Uuid → Row → Bool
has_id id r = r.id == id

abbrev pub extract_ids : List Notification → List Uuid
extract_ids = map (λ n. n.id)

-- The SET clauses.
abbrev pub set_status : Status → Option String → Option String → Time → Row → Row
set_status status provider_msg_id err_msg now r = record r {
  status = status;
  provider_message_id = coalesce provider_msg_id r.provider_message_id;
  error_message = coalesce err_msg r.error_message;
  updated_at = microseconds now;
}

abbrev pub set_cancelled : Time → Row → Row
set_cancelled now r = record r { status = cancelled; updated_at = microseconds now }

abbrev pub set_queued : Time → Row → Row
set_queued now r = record r { status = queued; updated_at = microseconds now }

abbrev pub set_attempted : Option Time → Time → Row → Row
set_attempted next_retry_at now r = record r {
  attempts = r.attempts + 1;
  last_attempt_at = some (microseconds now);
  next_retry_at = stored_at next_retry_at;
  updated_at = microseconds now;
}

abbrev pub mark_queued : Time → Notification → Notification
mark_queued now n = record n { status = queued; updated_at = now }
