-- ===== src/Examples/PostgresRuns.antt =====
-- A table of three rows: one scheduled for 90, one that failed and may be retried at 80, one queued.
use mathlib.Core.List.{Memᴰ}
use insider_one_notification.Prelude.{
  ◌≡◌, ◌≢◌, refl, ◌⊎◌, inr, false, none, some, List, [], ◌∷◌, any, All, ◌==◌,
}
use insider_one_notification.Errors.{Error, sentinel, duplicate_idempotency_key, wrap}
use insider_one_notification.Result.{ok, err}
use insider_one_notification.Entity.{Notification, queued, failed, delivered}
use insider_one_notification.Postgres.Row.{
  Row, pg_code, columns, in_microseconds, stored_at, marshal_template_vars, to_row, scan_vars,
  scan_notification, collect_notifications,
}
use insider_one_notification.Postgres.Clauses.{is_scheduled_ready, is_retry_ready, extract_ids}
use insider_one_notification.Postgres.Notifications.{
  create, get_by_id, update_status, cancel, increment_attempts,
}
use insider_one_notification.Postgres.Notifications.Writes.{
  WriteEffect, update_status_effect, cancel_effect, increment_attempts_effect,
}
use insider_one_notification.Postgres.Updates.{
  HasId, HasStatus, IsCancellable, IsCancelled, IsAttempted,
}
use insider_one_notification.Postgres.Notifications.Inserts.{create_duplicate, get_by_id-create}
use insider_one_notification.Postgres.Transactions.{
  create_batch, fetch_scheduled_ready, fetch_retry_ready, closed,
}
use insider_one_notification.Postgres.Transactions.Atomic.{BatchEffect, create_batch_effect}
use insider_one_notification.Postgres.Transactions.Fetch.{
  FetchReady, fetch_scheduled_ready_effect, fetch_retry_ready_effect,
}
use insider_one_notification.Postgres.Transactions.Once.{fetch_once}
use insider_one_notification.Examples.Memory.{memory, empty_json}
use insider_one_notification.Examples.EntityRuns.{welcome}

abbrev scheduled : Row
scheduled = columns (unfold welcome in record (welcome 1 "k1") { scheduled_at = some 90 }) none

abbrev retried : Row
retried =
    columns
      (unfold welcome in
        record (welcome 2 "k2") { status = failed; next_retry_at = some 80; attempts = 1 })
      none

abbrev waiting : Row
waiting = columns (unfold welcome in record (welcome 3 "k3") { status = queued }) none

abbrev rows : List Row
rows = scheduled ∷ retried ∷ waiting ∷ []

update_status_effect_example :
    WriteEffect empty_json memory
      (HasId 3)
      (HasStatus delivered (some "m-1") none)
      rows
      "updating notification status"
      3
      (update_status empty_json memory 3 delivered (some "m-1") none rows)
update_status_effect_example =
    update_status_effect empty_json memory 3 delivered (some "m-1") none rows

cancel_effect_example :
    WriteEffect empty_json memory
      (IsCancellable 2)
      IsCancelled
      rows
      "cancelling notification"
      2
      (cancel empty_json memory 2 rows)
cancel_effect_example = cancel_effect empty_json memory 2 rows

increment_attempts_effect_example :
    WriteEffect empty_json memory
      (HasId 2)
      (IsAttempted (some 200) 100)
      rows
      "incrementing attempts"
      2
      (increment_attempts empty_json memory 2 (some 200) rows)
increment_attempts_effect_example = increment_attempts_effect empty_json memory 2 (some 200) rows

create_duplicate_example :
    ((e : Error) × ((create empty_json memory (welcome 9 "k2") rows).0 ≡ err e)
      × ((create empty_json memory (welcome 9 "k2") rows).1 ≡ rows))
    × ((new : Row) (x : Error)
        → to_row empty_json (welcome 9 "k2") ≡ ok new
        → (memory.insert (new ∷ []) rows).0 ≡ err x
        → (pg_code x ≡ some "23505"
            → (create empty_json memory (welcome 9 "k2") rows).0
              ≡ err (sentinel duplicate_idempotency_key))
          × (pg_code x ≢ some "23505"
              → (create empty_json memory (welcome 9 "k2") rows).0 ≡ err (wrap "postgres error" x)))
unfolding welcome
create_duplicate_example =
    create_duplicate empty_json memory (welcome 9 "k2") retried rows (Memᴰ.tail (Memᴰ.head refl))
      (inr refl)

get_by_id-create_example :
    ((get_by_id empty_json memory 9 (create empty_json memory (welcome 9 "k9") rows).1).0
      ≡ ok (in_microseconds (welcome 9 "k9")))
    ⊎ ((e : Error) × ((get_by_id empty_json memory 9
            (create empty_json memory (welcome 9 "k9") rows).1).0
          ≡ err (wrap "scanning notification" e)))
unfolding welcome create to_row marshal_template_vars
get_by_id-create_example = get_by_id-create empty_json memory (welcome 9 "k9") rows refl

create_batch_effect_example :
    BatchEffect empty_json memory
      (welcome 8 "k8" ∷ welcome 9 "k9" ∷ [])
      rows
      (create_batch empty_json memory (welcome 8 "k8" ∷ welcome 9 "k9" ∷ []) rows)
create_batch_effect_example =
    create_batch_effect empty_json memory (welcome 8 "k8" ∷ welcome 9 "k9" ∷ []) rows

fetch_scheduled_ready_effect_example :
    FetchReady empty_json memory is_scheduled_ready 10 rows
      (fetch_scheduled_ready empty_json memory 10 rows)
fetch_scheduled_ready_effect_example = fetch_scheduled_ready_effect empty_json memory 10 rows

fetch_retry_ready_effect_example :
    FetchReady empty_json memory is_retry_ready 10 rows
      (fetch_retry_ready empty_json memory 10 rows)
fetch_retry_ready_effect_example = fetch_retry_ready_effect empty_json memory 10 rows

abbrev dispatched : Notification
dispatched =
    unfold welcome in
    record (in_microseconds (welcome 1 "k1")) {
      status = queued;
      scheduled_at = stored_at (some 90);
      updated_at = 100;
    }

-- The first fetch returns the scheduled notification, and the second one nothing.
fetch_once_example :
    ((fetch_scheduled_ready empty_json memory 10 rows).0 ≡ ok (dispatched ∷ [])
      → (fetch_scheduled_ready empty_json memory 10
          (fetch_scheduled_ready empty_json memory 10 rows).1).0
        ≡ ok []
      → All {A = Notification}
          (λ m. any (λ id. m.id == id) (extract_ids (dispatched ∷ [])) ≡ false)
          [])
    × ((fetch_retry_ready empty_json memory 10 rows).0 ≡ ok (dispatched ∷ [])
        → (fetch_retry_ready empty_json memory 10 (fetch_retry_ready empty_json memory 10 rows).1).0
          ≡ ok []
        → All {A = Notification}
            (λ m. any (λ id. m.id == id) (extract_ids (dispatched ∷ [])) ≡ false)
            [])
fetch_once_example = fetch_once empty_json memory 10 10 rows (dispatched ∷ []) []

found_first : (fetch_scheduled_ready empty_json memory 10 rows).0 ≡ ok (dispatched ∷ [])
unfolding welcome fetch_scheduled_ready collect_notifications scan_notification scan_vars closed
found_first = refl
